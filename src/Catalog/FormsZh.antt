-- ===== src/Catalog/FormsZh.antt =====
-- The Chinese texts of web/src/i18n.ts, from `protocol.title` to `settings.passwordDone`.
use sbm.Base.{List, [], ◌∷◌, String}

unfoldable pub forms_zh : List (String × String)
forms_zh =
    ("protocol.title", "协议管理")
    ∷ ("protocol.help", "支持 VLESS Reality 和 Hysteria2，保存时自动校验配置。")
    ∷ ("protocol.add", "新增协议")
    ∷ ("protocol.disable", "停用")
    ∷ ("protocol.enable", "启用")
    ∷ ("protocol.off", "关闭")
    ∷ ("protocol.copyLink", "复制链接")
    ∷ ("protocol.showQr", "显示二维码")
    ∷ ("protocol.edit", "编辑协议")
    ∷ ("protocol.delete", "删除协议")
    ∷ ("protocol.addAnother", "接入另一个协议")
    ∷ ("protocol.addAnotherHelp", "使用独立端口添加入站")
    ∷ ("protocol.newTitle", "新增协议")
    ∷ ("protocol.type", "协议类型")
    ∷ ("protocol.duplicate", "同类协议可使用不同端口和配置。")
    ∷ ("protocol.name", "节点名称")
    ∷ ("protocol.port", "监听端口")
    ∷ ("protocol.portHelp", "{network} 端口；还需在云安全组中放行")
    ∷ ("protocol.cancel", "取消")
    ∷ ("protocol.generate", "生成并应用")
    ∷ ("protocol.editTitle", "编辑协议")
    ∷ ("protocol.privateKey", "Reality 私钥")
    ∷ ("protocol.publicKey", "Reality 公钥")
    ∷ ("protocol.password", "认证密码")
    ∷ ("protocol.obfs", "混淆")
    ∷ ("protocol.obfsPassword", "混淆密码")
    ∷ ("protocol.firewall", "主机防火墙由 SBM 配置，云安全组需手动放行对应端口。")
    ∷ ("protocol.apply", "校验并应用")
    ∷ ("protocol.qrAlt", "节点二维码")
    ∷ ("protocol.qrHelp", "扫描后直接导入该节点")
    ∷ ("protocol.created", "协议已创建并应用")
    ∷ ("protocol.saved", "配置已校验并应用")
    ∷ ("protocol.disabled", "协议已停用")
    ∷ ("protocol.enabled", "协议已启用")
    ∷ ("protocol.deleteConfirm", "确定删除“{name}”？")
    ∷ ("protocol.deleted", "协议已删除")
    ∷ ("protocol.linkCopied", "节点链接已复制")
    ∷ ("protocol.defaultName", "新节点")
    ∷ ("settings.title", "设置")
    ∷ ("settings.help", "管理代理出口、流量配额和安全参数，各区域独立保存。")
    ∷ ("settings.traffic", "套餐流量与周期")
    ∷ ("settings.quotaAmount", "套餐流量")
    ∷ ("settings.billingMode", "计费方向")
    ∷ ("settings.billingBidirectional", "双向（RX + TX）")
    ∷ ("settings.billingSingle", "单向（TX）")
    ∷ ("settings.headroom", "安全预留")
    ∷ ("settings.planAllowance", "云厂商套餐")
    ∷ ("settings.estimatedProviderStop", "vnStat 安全停机点")
    ∷ ("settings.proxyStop", "代理实际停机点")
    ∷ ("settings.unlimited", "不限量")
    ∷ ("settings.autoReset", "自动重置")
    ∷ ("settings.noReset", "不自动重置")
    ∷ ("settings.monthly", "每月重置")
    ∷ ("settings.day", "每月日期")
    ∷ ("settings.dayHelp", "29–31 日在小月按当月最后一天重置")
    ∷ ("settings.hour", "重置时刻")
    ∷ ("settings.timezone", "时区")
    ∷ ("settings.outbound", "代理出口网络")
    ∷ ("settings.outboundHelp", "控制 sing-box 访问目标域名时优先使用 IPv4 还是 IPv6。")
    ∷ ("settings.outboundStrategy", "地址族策略")
    ∷ ("settings.outboundAuto", "自动（系统默认）")
    ∷ ("settings.outboundPreferIPv4", "优先 IPv4，失败时回退 IPv6")
    ∷ ("settings.outboundPreferIPv6", "优先 IPv6，失败时回退 IPv4")
    ∷ ("settings.outboundIPv4Only", "仅 IPv4")
    ∷ ("settings.outboundIPv6Only", "仅 IPv6")
    ∷ ("settings.outboundGuideTitle", "地址族策略")
    ∷ ("settings.outboundGuidePrefer", "“优先”支持另一地址族回退；“仅”限定使用所选地址族。")
    ∷ ("settings.outboundGuideOnly", "适用于域名目标；客户端已解析为 IP 的目标使用该 IP 的地址族。")
    ∷ ("settings.saveTraffic", "保存流量设置")
    ∷ ("settings.saveOutbound", "保存出口策略")
    ∷ ("settings.trafficSaved", "流量设置已保存")
    ∷ ("settings.outboundSaved", "出口策略已校验并应用")
    ∷ ("settings.subscription", "总订阅 Token")
    ∷ ("settings.subscriptionHelp", "重新生成后，所有使用旧地址的客户端都无法更新。")
    ∷ ("settings.copy", "复制")
    ∷ ("settings.regenerate", "重新生成 Token")
    ∷ ("settings.password", "管理员密码")
    ∷ ("settings.passwordHelp", "密码为 12–72 字节。修改成功后所有会话失效。")
    ∷ ("settings.passwordLength", "密码必须为 12–72 字节（中文通常每字 3 字节）")
    ∷ ("settings.currentPassword", "当前密码")
    ∷ ("settings.newPassword", "新密码")
    ∷ ("settings.confirmPassword", "确认新密码")
    ∷ ("settings.changePassword", "修改密码")
    ∷ ("settings.loading", "正在读取设置…")
    ∷ ("settings.tokenConfirm", "旧订阅地址会立即失效，确定重新生成？")
    ∷ ("settings.tokenDone", "订阅 Token 已重新生成")
    ∷ ("settings.passwordMismatch", "两次输入的新密码不一致")
    ∷ ("settings.passwordDone", "密码已修改，请重新登录")
    ∷ []
