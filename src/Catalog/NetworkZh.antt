-- ===== src/Catalog/NetworkZh.antt =====
-- The Chinese texts of web/src/network-i18n.ts.
use sbm.Base.{List, [], ◌∷◌, String}

unfoldable pub network_zh : List (String × String)
network_zh =
    ("network.calibrate", "校准用量")
    ∷ ("network.calibrateTitle", "校准本周期已用量")
    ∷ ("network.calibrateUsed", "云厂商后台显示的已用量")
    ∷ (
      "network.calibrateHelp",
      "填入云厂商后台显示的本周期已用量，SBM 在此基础上继续累计，直到下次重置或修改计费方式。适用于中途安装 SBM、中途接入出口，或主机上还有其他流量的情况。",
    )
    ∷ ("network.calibrateMeasured", "{name} · SBM 当前统计 {amount}")
    ∷ ("network.calibrateSave", "保存校准")
    ∷ ("network.calibrateClear", "清除校准")
    ∷ ("network.calibrateDone", "已用量已校准")
    ∷ ("network.calibrateCleared", "已清除校准")
    ∷ ("network.calibrated", "已按云厂商后台校准本周期用量")
    ∷ ("network.source", "来源：vnStat · {interface}")
    ∷ ("network.waiting", "vnStat 尚无可用数据")
    ∷ ("network.interrupted", "vnStat 读取中断，显示最后结果")
    ∷ ("network.partial", "当前周期记录不完整")
    ∷ ("network.realtimeEstimate", "vnStat 暂未更新，已按 sing-box 代理计数补算 {amount}")
    ∷ ("network.rx", "接收 RX")
    ∷ ("network.tx", "发送 TX")
    ∷ ("network.total", "公网网卡流量")
    ∷ ("network.reference", "sing-box 参考")
    ∷ ("network.missing", "未记录 vnStat")
    ∷ ("network.interface", "vnStat 公网网卡")
    ∷ ("network.autoInterface", "留空自动选择默认路由网卡")
    ∷ ("network.guideDelay", "统计所选公网网卡的整机通信，包含代理、WireGuard、SSH 和系统更新。采集间隔 30 秒，vnStat 每分钟保存。")
    ∷ []
