-- ===== src/Tests.antt =====
-- Runs of the definitions at concrete inputs, one for each property.
pub mod CacheRuns
pub mod EvaluatorRuns
pub mod AuthRuns
pub mod NetworkRuns
pub mod ProxyRuns
pub mod ConfigRuns
pub mod ClientAuthRuns
pub mod HeadersRuns
pub mod LoadRuns
pub mod SaveRuns
pub mod TunnelRuns
pub mod HostsRuns
pub mod CommandRuns
pub mod ClientsRuns
pub mod NegotiateRuns
pub mod SspiRuns
pub mod KerberosRuns
pub mod PlatformRuns
pub mod PoolRuns
pub mod LifecycleRuns
pub mod DigestRuns
