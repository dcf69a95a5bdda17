-- ===== src/Catalog/HealthZh.antt =====
-- The Chinese texts of web/src/i18n.ts, from `update.title` to `api.unreachable`.
use sbm.Base.{List, [], ◌∷◌, String}

unfoldable pub health_zh : List (String × String)
health_zh =
    ("update.title", "更新 SBM 面板")
    ∷ ("update.running", "正在更新，查看进度")
    ∷ ("update.install", "立即更新")
    ∷ ("update.installHelp", "自动下载并校验新版，安装后重启面板。现有配置和流量记录会保留，sing-box 继续运行。")
    ∷ ("update.waitHelp", "更新任务会在后台继续执行，完成后页面自动刷新。")
    ∷ ("update.reconnecting", "面板正在重启，等待重新连接…")
    ∷ ("update.failed", "更新未完成")
    ∷ ("update.rolledBack", "已恢复上一版面板，可稍后重试。")
    ∷ ("update.failedHelp", "请查看服务器 journalctl -u sbm-panel-update 的日志，确认原因后重试。")
    ∷ ("update.retry", "重新检查")
    ∷ ("update.unavailable", "此运行环境不支持面板自动更新。")
    ∷ ("update.phase.queued", "正在启动更新任务…")
    ∷ ("update.phase.preparing", "正在准备更新…")
    ∷ ("update.phase.downloading", "正在下载、校验并安装新版…")
    ∷ ("update.phase.restarting", "正在重启面板并验证服务…")
    ∷ ("update.phase.rollback", "新版启动失败，正在恢复上一版…")
    ∷ ("update.phase.done", "更新任务已结束")
    ∷ ("update.phase.launch", "更新任务未能启动")
    ∷ ("update.phase.interrupted", "更新任务已中断")
    ∷ ("server.title", "服务器健康")
    ∷ ("server.help", "主机资源与服务诊断，每 5 秒自动刷新。")
    ∷ ("server.cpu", "CPU 使用率")
    ∷ ("server.memory", "内存")
    ∷ ("server.disk", "根分区磁盘")
    ∷ ("server.usedOf", "已用 {used} / {total}")
    ∷ ("server.load", "系统负载")
    ∷ ("server.loadHelp", "过去 1、5、15 分钟")
    ∷ ("server.uptime", "运行时长")
    ∷ ("server.days", "{days} 天 {hours} 小时")
    ∷ ("server.hours", "{hours} 小时 {minutes} 分钟")
    ∷ ("server.hostname", "主机名")
    ∷ ("server.system", "操作系统")
    ∷ ("server.kernel", "内核")
    ∷ ("server.arch", "架构")
    ∷ ("server.cores", "{count} 核")
    ∷ ("server.updated", "更新于 {time}")
    ∷ ("server.loading", "正在读取流量数据…")
    ∷ ("server.doctor", "诊断检查")
    ∷ ("server.somePassed", "{passed}/{total} 项检查通过")
    ∷ ("server.overall.ok", "正常")
    ∷ ("server.overall.warning", "警告")
    ∷ ("server.overall.error", "异常")
    ∷ ("server.overall.unknown", "未知")
    ∷ ("server.status.ok", "正常")
    ∷ ("server.status.warning", "注意")
    ∷ ("server.status.error", "异常")
    ∷ ("server.status.unknown", "未知")
    ∷ ("server.check.core", "sing-box 核心")
    ∷ ("server.check.traffic", "流量采样")
    ∷ ("server.check.config", "sing-box 配置")
    ∷ ("server.check.tls", "TLS 证书")
    ∷ ("server.check.disk", "根分区容量")
    ∷ ("server.check.reset", "流量重置")
    ∷ ("server.check.listenerPanel", "面板监听 · {protocol}/{port}")
    ∷ ("server.check.listenerInbound", "入站监听 · {protocol}/{port}")
    ∷ ("server.reason.running", "sing-box 正在运行。")
    ∷ ("server.reason.stopped", "sing-box 未运行。")
    ∷ ("server.reason.state_unavailable", "无法读取 sing-box 运行状态。")
    ∷ ("server.reason.quota_paused", "已达到代理安全阈值，核心已按计划暂停。")
    ∷ ("server.reason.quota_enforcement_failed", "已达到代理安全阈值，但 sing-box 仍在运行。")
    ∷ ("server.reason.sample_waiting", "正在等待流量样本。")
    ∷ ("server.reason.sample_unavailable", "流量采样器不可用。")
    ∷ ("server.reason.sample_healthy", "流量计数正在更新。")
    ∷ ("server.reason.sample_interrupted", "流量读取中断，保留最后结果。")
    ∷ ("server.reason.config_unavailable", "配置检查不可用。")
    ∷ ("server.reason.config_valid", "当前配置已通过 sing-box check。")
    ∷ ("server.reason.config_timeout", "sing-box 配置检查超时。")
    ∷ ("server.reason.config_invalid", "当前配置未通过 sing-box check。")
    ∷ ("server.reason.certificate_unavailable", "无法读取 TLS 证书。")
    ∷ ("server.reason.certificate_invalid", "TLS 证书文件无法解析。")
    ∷ ("server.reason.certificate_expired", "TLS 证书已经过期。")
    ∷ ("server.reason.certificate_critical", "TLS 证书将在 7 天内到期。")
    ∷ ("server.reason.certificate_expiring", "TLS 证书将在 30 天内到期。")
    ∷ ("server.reason.certificate_valid", "TLS 证书有效期充足。")
    ∷ ("server.reason.listening", "本机端口正在监听。")
    ∷ ("server.reason.listener_unavailable", "无法读取本机监听表。")
    ∷ ("server.reason.not_listening", "配置端口当前没有对应协议的监听。")
    ∷ ("server.reason.disk_ok", "根分区空间充足。")
    ∷ ("server.reason.disk_unavailable", "无法读取根分区容量。")
    ∷ ("server.reason.disk_high", "根分区使用率已达到 85%。")
    ∷ ("server.reason.disk_critical", "根分区使用率已达到 95%。")
    ∷ ("server.reason.reset_disabled", "未启用自动重置。")
    ∷ ("server.reason.reset_unavailable", "无法读取重置配置。")
    ∷ ("server.reason.reset_schedule_missing", "已启用月度重置，但下次时间缺失。")
    ∷ ("server.reason.reset_scheduled", "月度流量重置计划有效。")
    ∷ ("server.detail.expires", "到期：{time}")
    ∷ ("server.detail.failedSince", "中断自：{time}")
    ∷ ("server.detail.lastSample", "最近采样：{time}")
    ∷ ("server.detail.nextReset", "下次：{time} · {timezone}")
    ∷ ("api.failed", "请求失败 ({status})")
    ∷ ("api.stale", "连接中断，显示上次数据。")
    ∷ ("api.unreachable", "无法连接面板，请检查网络后重试")
    ∷ []
