-- ===== src/Catalog/ConsoleZh.antt =====
-- Chinese texts of web/src/i18n.ts, from
-- `dashboard.durationSeconds` to `dashboard.updateFailed`.
use sbm.Base.{List, [], ◌∷◌, String}

unfoldable pub console_zh : List (String × String)
console_zh =
    ("dashboard.durationSeconds", "{count} 秒")
    ∷ ("dashboard.durationMinutes", "{count} 分钟")
    ∷ ("dashboard.durationUnknown", "一段时间")
    ∷ ("settings.trafficHelp", "按云厂商套餐标注选择 GB 或 GiB。")
    ∷ ("settings.quotaUnit", "单位")
    ∷ ("dashboard.qrDownload", "保存二维码")
    ∷ ("dashboard.qrSaved", "二维码图片已保存")
    ∷ ("protocol.qrDownload", "保存二维码")
    ∷ ("protocol.qrSaved", "二维码图片已保存")
    ∷ ("app.title", "SBM")
    ∷ ("language", "EN")
    ∷ ("close", "关闭")
    ∷ ("confirm", "确认")
    ∷ ("logout", "退出")
    ∷ ("overview", "概览")
    ∷ ("protocols", "协议")
    ∷ ("server", "流量")
    ∷ ("traffic", "流量")
    ∷ ("settings", "设置")
    ∷ ("copied", "已复制")
    ∷ ("password.show", "显示密码")
    ∷ ("password.hide", "隐藏密码")
    ∷ ("traffic.title", "流量统计")
    ∷ ("traffic.help", "代理应用与站点流量排行（持久化存储于本地 SQLite），以及网卡每日与月度流量历史记录。")
    ∷ ("traffic.tabHistory", "流量历史")
    ∷ ("traffic.tabApps", "应用与站点")
    ∷ ("login.title", "管理员登录")
    ∷ ("login.help", "凭据仅用于当前服务器。")
    ∷ ("login.username", "用户名")
    ∷ ("login.password", "密码")
    ∷ ("login.loading", "验证中…")
    ∷ ("login.submit", "进入控制台")
    ∷ ("login.expired", "会话已过期，请重新登录。")
    ∷ ("dashboard.title", "运行概览")
    ∷ ("dashboard.reset", "重置流量")
    ∷ ("dashboard.restart", "重启 sing-box")
    ∷ ("dashboard.exceeded", "已达到安全阈值")
    ∷ ("dashboard.exceededHelp", "sing-box 已按安全预留设置停止。重置流量或在设置中提高套餐额度后可恢复。")
    ∷ ("dashboard.running", "运行中")
    ∷ ("dashboard.stopped", "已停止")
    ∷ ("dashboard.unknown", "状态未知")
    ∷ ("dashboard.noReset", "不自动重置")
    ∷ ("dashboard.providerSummary", "套餐 {total} · 剩余约 {remaining} · 已预留 {reserve}%")
    ∷ ("dashboard.unlimitedHelp", "未设置套餐流量限制")
    ∷ ("dashboard.unlimited", "不限量")
    ∷ ("dashboard.upload", "上传")
    ∷ ("dashboard.download", "下载")
    ∷ ("dashboard.refresh", "刷新")
    ∷ ("dashboard.refreshHelp", "每 5 秒自动刷新，可手动立即刷新")
    ∷ ("dashboard.refreshed", "流量数据已刷新")
    ∷ ("dashboard.sampleWaiting", "统计来源：sing-box · 等待采样")
    ∷ ("dashboard.sampleHealthy", "统计来源：sing-box · {age}")
    ∷ ("dashboard.sampleInterrupted", "统计来源：sing-box · 采样中断")
    ∷ ("dashboard.samplePaused", "统计来源：sing-box · 已随配额暂停")
    ∷ ("dashboard.sampleHelp", "sing-box 代理流量统计。")
    ∷ ("dashboard.sampleInterruptedHelp", "采样自 {time} 起中断，显示最后结果。")
    ∷ ("dashboard.samplePausedHelp", "sing-box 已达到安全阈值，代理采样已暂停。")
    ∷ ("dashboard.justNow", "刚刚更新")
    ∷ ("dashboard.secondsAgo", "{count} 秒前更新")
    ∷ ("dashboard.minutesAgo", "{count} 分钟前更新")
    ∷ ("dashboard.safetyThreshold", "安全停机阈值：约 {amount}")
    ∷ ("dashboard.subscription", "总订阅")
    ∷ ("dashboard.subscriptionHelp", "一个地址订阅全部已启用节点，支持客户端自动识别或手动指定订阅格式。")
    ∷ ("dashboard.subFormatAuto", "自适应通用")
    ∷ ("dashboard.subFormatClash", "Clash Meta")
    ∷ ("dashboard.subFormatSingbox", "sing-box")
    ∷ ("dashboard.subFormatV2ray", "Base64")
    ∷ ("dashboard.copy", "复制")
    ∷ ("dashboard.secretHelp", "订阅地址包含访问 Token，请勿公开分享。")
    ∷ ("dashboard.qrAlt", "总订阅二维码")
    ∷ ("dashboard.loading", "正在读取核心状态…")
    ∷ ("dashboard.resetConfirm", "确定重置本周期流量？历史记录会保留。")
    ∷ ("dashboard.restartConfirm", "重启 sing-box 会短暂断开代理连接，确定继续？")
    ∷ ("dashboard.resetDone", "流量已重置")
    ∷ ("dashboard.restartDone", "sing-box 已重启")
    ∷ ("dashboard.copyDone", "订阅地址已复制")
    ∷ ("dashboard.checkUpdate", "检查面板新版本")
    ∷ ("dashboard.updateFound", "发现新版本 {version}")
    ∷ ("dashboard.updateCurrent", "当前已是最新版本")
    ∷ ("dashboard.updateFailed", "版本检查失败，请稍后重试")
    ∷ []
