-- ===== src/Catalog/HistoryZh.antt =====
-- The Chinese texts of web/src/history-i18n.ts.
use sbm.Base.{List, [], ◌∷◌, String}

unfoldable pub history_zh : List (String × String)
history_zh =
    ("history.title", "流量历史")
    ∷ ("history.help", "公网网卡的每日记录与自然月汇总，附 sing-box 代理流量参考。")
    ∷ ("history.granularity", "统计粒度")
    ∷ ("history.daily", "每日")
    ∷ ("history.monthly", "每月")
    ∷ ("history.selectMonth", "选择月份")
    ∷ ("history.selectYear", "选择年份")
    ∷ ("history.day", "日期")
    ∷ ("history.month", "月份")
    ∷ ("history.proxyTotal", "代理流量")
    ∷ ("history.providerTotal", "估算套餐用量")
    ∷ ("history.since", "开始记录：{date} · {timezone}")
    ∷ ("history.importedHelp", "sing-box 累计参考：{amount}（未分日）")
    ∷ ("history.imported", "汇总记录")
    ∷ ("history.partial", "未完整记录")
    ∷ ("history.tableLabel", "流量记录 · {timezone}")
    ∷ ("history.empty", "所选时间没有已保存的记录。")
    ∷ ("history.loading", "正在读取流量历史…")
    ∷ ("history.failed", "读取流量历史失败")
    ∷ ("history.swipe", "左右滑动查看全部列")
    ∷ ("history.invalidPeriod", "请选择有效的月份或年份。")
    ∷ ("history.footnote", "采集间隔 30 秒，页面每分钟刷新。未完整覆盖的日期或月份标记为“未完整记录”。")
    ∷ ("apps.title", "应用与站点流量排行")
    ∷ ("apps.help", "基于 sing-box 代理连接的目标域名（SNI/Host）与特征 IP 归类统计，点击条目可展开主域名明细。")
    ∷ ("apps.daily", "按日")
    ∷ ("apps.monthly", "按月")
    ∷ ("apps.selectDay", "选择日期")
    ∷ ("apps.selectMonth", "选择月份")
    ∷ ("apps.export", "导出分析")
    ∷ ("apps.exportDone", "已导出应用与站点流量 JSON")
    ∷ ("apps.clear", "清空统计")
    ∷ ("apps.clearConfirm", "确定清空全部已保存的应用与站点流量排行记录？套餐额度和网卡流量历史不会受影响。")
    ∷ ("apps.clearDone", "应用流量统计已清空")
    ∷ ("apps.empty", "所选时间暂无应用流量记录。建立代理连接后将自动采样归类。")
    ∷ ("apps.loading", "正在读取应用流量排行…")
    ∷ ("apps.failed", "读取应用流量排行失败")
    ∷ ("apps.invalidPeriod", "请选择有效的日期或月份。")
    ∷ ("apps.app", "应用 / 主域名")
    ∷ ("apps.upload", "上传")
    ∷ ("apps.download", "下载")
    ∷ ("apps.total", "合计 / 占比")
    ∷ ("apps.domainsCount", "{count} 个域名")
    ∷ ("apps.proxyTotal", "代理总计：{amount}")
    ∷ (
      "apps.footnote",
      "隐私脱敏存储：仅按小时累加主域名（eTLD+1）字节数，不记录客户端来源 IP、具体时间或完整长子域名。两次采样之间关闭的连接无法归到具体应用，计入“未归属”。",
    )
    ∷ ("apps.cat.streaming", "流媒体")
    ∷ ("apps.cat.ai", "AI 服务")
    ∷ ("apps.cat.social", "社交媒体")
    ∷ ("apps.cat.messaging", "即时通讯")
    ∷ ("apps.cat.dev", "开发工具")
    ∷ ("apps.cat.gaming", "游戏平台")
    ∷ ("apps.cat.ecosystem", "生态共享")
    ∷ ("apps.cat.cdn", "通用 CDN")
    ∷ ("apps.cat.site", "独立站点")
    ∷ ("apps.cat.direct_ip", "纯 IP")
    ∷ ("apps.cat.other", "其他")
    ∷ ("apps.cat.unattributed", "未归属")
    ∷ ("apps.cat.productivity", "效率与资料")
    ∷ ("apps.name.ecosystem:google", "Google 公共服务")
    ∷ ("apps.name.ecosystem:apple", "Apple 服务")
    ∷ ("apps.name.ecosystem:meta", "Meta 共享服务")
    ∷ ("apps.name.ecosystem:microsoft", "Microsoft 服务")
    ∷ ("apps.name.ecosystem:amazon", "Amazon / AWS")
    ∷ ("apps.name.ip:tcp", "直连 IP (TCP)")
    ∷ ("apps.name.ip:udp", "直连 IP (UDP)")
    ∷ ("apps.name.other", "其他长尾域名")
    ∷ ("apps.name.unattributed", "未归属（已关闭的短连接）")
    ∷ []
