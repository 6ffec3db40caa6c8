-- ===== src/Facts.antt =====
-- libs/core/include/lm/core/host_facts.hpp: what a client has found out about its machine. The type
-- `double` is a parameter. DiskUsage::used_percent is arithmetic on it and is not modelled.
use lab_monitor.Base.{ℕ, Bool, Option, List, Text}
use lab_monitor.Base.OrderedMap.{Map}
use lab_monitor.Types.{AdapterType, LinkState, ServiceState}
use lab_monitor.Version.{Version}

pub record DiskUsage : Type 0 where
  pub mount : Text
  pub total_bytes : ℕ
  pub free_bytes : ℕ

pub record NetworkAdapter : Type 0 where
  pub name : Text
  pub description : Text
  pub id : Text
  pub type : AdapterType
  pub link : LinkState

pub record ResourceSample (Double : Type 0) : Type 0 where
  pub cpu_percent : Double
  pub mem_total_bytes : ℕ
  pub mem_used_bytes : ℕ
  pub disks : List DiskUsage
  pub adapters : List NetworkAdapter

pub record ProcessInfo : Type 0 where
  pub executable : Text
  pub version : Option Version

pub record ServiceInfo : Type 0 where
  pub name : Text
  pub state : ServiceState

pub record RegistryValue : Type 0 where
  pub exists : Bool
  pub content : Text
  pub error : Text

pub record DdsTopicSample : Type 0 where
  pub topic_found : Bool
  pub json : Text
  pub has_sample : Bool
  pub error : Text

pub record HostFacts (Double : Type 0) : Type 0 where
  pub host_id : Text
  pub resources : ResourceSample Double
  pub processes : List ProcessInfo
  pub services : List ServiceInfo
  pub registry : Map RegistryValue
  pub dds : Map DdsTopicSample
