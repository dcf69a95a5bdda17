-- ===== src/Catalog/EgressZh.antt =====
-- The Chinese texts of web/src/egress-i18n.ts.
use sbm.Base.{List, [], ◌∷◌, String}

unfoldable pub egress_zh : List (String × String)
egress_zh =
    ("egress", "中继出口")
    ∷ ("egress.delete", "删除 Gateway")
    ∷ ("egress.title", "中继出口")
    ∷ ("egress.help", "同一入口、多个最终出口。客户端通过节点凭据选择 Direct 或 WireGuard。")
    ∷ ("egress.add", "新增 Gateway")
    ∷ ("egress.edit", "编辑 Gateway")
    ∷ ("egress.save", "保存并校验")
    ∷ ("egress.saving", "正在应用…")
    ∷ ("egress.client", "客户端")
    ∷ ("egress.entry", "SBM 入口")
    ∷ ("egress.gateway", "出口 Gateway")
    ∷ ("egress.enabled", "已启用")
    ∷ ("egress.disabled", "已停用")
    ∷ ("egress.enableForm", "启用出口及其衍生节点")
    ∷ ("egress.estimate", "根据 WireGuard 隧道流量估算")
    ∷ ("egress.warningOnly", "默认只预警；可为单个出口开启达到阈值时暂停")
    ∷ ("egress.loading", "正在读取中继出口…")
    ∷ ("egress.empty", "从入口直接访问互联网")
    ∷ ("egress.emptyHelp", "添加 Gateway 可在总订阅中使用其出口 IP，Direct 节点始终可用。")
    ∷ ("egress.location", "出口位置")
    ∷ ("egress.detected", "检测位置")
    ∷ ("egress.override", "手动位置")
    ∷ ("egress.overrideHelp", "优先于 IP 位置检测。示例 JP-Tokyo；留空则使用检测结果。")
    ∷ ("egress.unknown", "尚无检测结果")
    ∷ ("egress.exitIP", "B 公网 IPv4")
    ∷ ("egress.port", "WireGuard UDP 端口")
    ∷ ("egress.marker", "标记（可为空）")
    ∷ ("egress.markerPlaceholder", "AWS、JP1、SG1")
    ∷ ("egress.position", "显示顺序")
    ∷ ("egress.privateKey", "A 端私钥")
    ∷ ("egress.publicKey", "A 端公钥（复制给 B）")
    ∷ ("egress.peerKey", "B 端公钥")
    ∷ ("egress.generateKeys", "生成 A 端密钥")
    ∷ ("egress.keyHelp", "更换 A 私钥后，需同步更新 B 的 Peer 公钥。")
    ∷ ("egress.noPublicKey", "生成密钥或填入 A 私钥")
    ∷ ("egress.aAddress", "A 隧道地址")
    ∷ ("egress.bAddress", "B Interface 地址")
    ∷ ("egress.setupHelp", "可先停用保存，获取固定的 B 隧道地址；完成 B 的 WireGuard、转发和 NAT 配置后再启用。")
    ∷ ("egress.saved", "中继出口已保存")
    ∷ ("egress.savedGeoFailed", "已保存；位置检测暂不可用，可手动填写位置")
    ∷ ("egress.deleted", "中继出口已删除")
    ∷ ("egress.redetect", "重新检测位置")
    ∷ ("egress.geoDone", "出口位置已更新")
    ∷ ("egress.geoFailed", "位置检测失败，保留上次结果；可手动填写位置")
    ∷ ("egress.resetDay", "每月 {day} 日")
    ∷ ("egress.resetDayHour", "每月 {day} 日 {hour}:00")
    ∷ ("egress.nextReset", "下次重置：{date}")
    ∷ ("egress.remaining", "剩余约 {amount}")
    ∷ ("egress.resetTraffic", "重置出口流量")
    ∷ ("egress.resetConfirm", "只清零此 Gateway 的本周期统计，其他出口与本机流量不变。")
    ∷ ("egress.resetDone", "出口流量已重置")
    ∷ ("egress.deleteConfirm", "删除会移除此 Gateway 的所有衍生凭据和流量状态。重新添加会生成新的凭据。")
    ∷ ("egress.quotaWarning", "已达到套餐预警阈值；此出口继续运行")
    ∷ ("egress.paused", "已达到安全阈值，此出口已暂停，重置或校准后恢复")
    ∷ ("egress.stopOnQuota", "达到安全阈值时暂停此出口")
    ∷ ("egress.stopOnQuotaHelp", "只拒绝此出口的节点，不会改走其他出口；入口和其他出口照常运行。暂停和恢复时各重启一次 sing-box。")
    ∷ ("egress.sample.waiting", "等待隧道采样")
    ∷ ("egress.sample.healthy", "隧道计数正常")
    ∷ ("egress.sample.interrupted", "隧道计数中断，显示最后结果")
    ∷ ("egress.sample.disabled", "出口已停用")
    ∷ ("egress.persistenceFailed", "流量数据尚未完整保存，正在重试。")
    ∷ ("egress.partialUsage", "本周期记录不完整，用量仅供参考。")
    ∷ ("egress.managed", "只读衍生节点；统一在“中继出口”页面修改。")
    ∷ ("egress.guide.title", "如何配置出口机器 B")
    ∷ ("egress.guide.subtitle", "5 个步骤 · Ubuntu / Debian · 安装、密钥、填写与验证")
    ∷ (
      "egress.guide.intro",
      "A 是运行 SBM 的入口机器，B 是提供最终出口 IP 的 Linux 机器。下面标有 B · SSH 的命令都在 B 上执行；A 端的密钥与节点在此面板管理。",
    )
    ∷ ("egress.guide.installTitle", "在 B 安装 WireGuard")
    ∷ (
      "egress.guide.installHelp",
      "先 SSH 登录 B，确认它有可达的公网 IPv4，再安装 WireGuard、iptables 与网络工具。B 只需运行 WireGuard，出口机器无需安装 SBM。",
    )
    ∷ (
      "egress.guide.interfaceHelp",
      "在 ip route show default 的输出里找 dev 后面的网卡名称，例如 ens5、ens4 或 eth0。",
    )
    ∷ ("egress.guide.keysTitle", "生成 B 的密钥，并复制 B 公钥")
    ∷ ("egress.guide.keysHelp", "下面命令将私钥保存在 B，仅打印公钥；重复执行会保留已有私钥。把最后显示的 B 公钥复制到面板，B 私钥留在 B。")
    ∷ ("egress.guide.panelTitle", "在面板新增 Gateway，先停用保存")
    ∷ ("egress.guide.panelHelp", "点击“新增 Gateway”，按以下对应关系填写。默认会生成一组 A 端密钥，A 和 B 分别使用自己的密钥对。")
    ∷ ("egress.guide.ipHelp", "填写 B 的公网 IPv4；UDP 端口默认 51820，与 B 的 ListenPort 保持一致。")
    ∷ ("egress.guide.aKeyHelp", "使用面板生成的 A 私钥；对应的 A 公钥会自动派生，下一步填到 B 的 Peer。")
    ∷ ("egress.guide.bKeyHelp", "粘贴第 2 步最后打印的 B 公钥。")
    ∷ (
      "egress.guide.draftHelp",
      "先不勾选“启用出口及其衍生节点”并保存。保存后，在该 Gateway 卡片中查看固定的 A 隧道地址和 B Interface 地址，下一步按这些地址填写 B 配置。",
    )
    ∷ ("egress.guide.configTitle", "在 B 配置转发、NAT 与 WireGuard")
    ∷ (
      "egress.guide.configHelp",
      "先在 B 开启 IPv4 转发并新建配置文件。将下方示例中的占位符替换为实际值，粘贴到配置文件并保存。双方地址以面板中该 Gateway 的卡片为准。",
    )
    ∷ (
      "egress.guide.configNotice",
      "示例中的 X、A_PUBLIC_KEY 和 B_PUBLIC_INTERFACE 必须替换为实际值。示例适用于普通 iptables 主机；若使用 UFW、firewalld 或已有 DROP 规则，请在现有策略中放行转发与 NAT，不要清空防火墙。",
    )
    ∷ (
      "egress.guide.firewallHelp",
      "示例使用 UDP/{port}，更改端口时以实际值为准。在云防火墙和 B 的主机防火墙放行来自 A 公网 IP 的这个 UDP 端口；A 的出站规则也需允许到 B 的这个 UDP 端口。然后执行下面的启动命令。",
    )
    ∷ (
      "egress.guide.restartHelp",
      "后续修改 B 配置时，执行 sudo systemctl restart wg-quick@sbm-egress 使其生效。更换 A 私钥后，还需更新 B 的 Peer 公钥。",
    )
    ∷ ("egress.guide.verifyTitle", "启用 Gateway，验证最终出口 IP")
    ∷ (
      "egress.guide.verifyHelp",
      "B 启动成功后回到面板启用此 Gateway，刷新客户端订阅。分别选择它的 VLESS、HY2 节点打开下方地址，ip= 应是 B；选择 Direct 节点则应是 A。",
    )
    ∷ (
      "egress.guide.troubleshoot",
      "无法连接时，先在 B 查看 sudo wg show sbm-egress 的 latest handshake 与 transfer，再检查两端公钥、UDP 放行、IPv4 转发和 NAT。使用 IPv4 目标测试。",
    )
    ∷ ("egress.guide.slotHelp", "使用面板隧道地址的第三段数字。例如卡片显示 10.66.2.1/24 与 10.66.2.2/32，则 X=2；不要一律填 1。")
    ∷ ("egress.guide.aPublicKeyHelp", "打开该 Gateway 的编辑窗口，复制“A 端公钥（复制给 B）”。这里填 A 公钥，B 私钥由本地文件读取。")
    ∷ ("egress.guide.reference", "WireGuard 官方入门说明")
    ∷ []
