-- ===== src/Types.antt =====
-- types/types.go, and the structs of flynn-host, go-dockerclient and strowger of which the program
-- reads or writes fields (with those fields). A timestamp is a number; a nil pointer is `none`.
use flynn_controller.Prelude.{ℕ, Bool, List, Option, Text, ℤ}
use flynn_controller.Prelude.Map.{Map}

pub record App : Type 0 where
  pub id : Text
  pub name : Text
  pub protected : Bool
  pub meta : Map Text Text
  pub created_at : Option ℕ
  pub updated_at : Option ℕ

pub record ProcessPorts : Type 0 where
  pub tcp : ℤ
  pub udp : ℤ

pub record ProcessType : Type 0 where
  pub cmd : List Text
  pub env : Map Text Text
  pub ports : ProcessPorts
  pub volume : Bool

pub record Release : Type 0 where
  pub id : Text
  pub artifact_id : Text
  pub env : Map Text Text
  pub processes : Map Text ProcessType
  pub created_at : Option ℕ

pub record Artifact : Type 0 where
  pub id : Text
  pub type : Text
  pub uri : Text
  pub created_at : Option ℕ

pub record Formation : Type 0 where
  pub app_id : Text
  pub release_id : Text
  pub processes : Map Text ℤ
  pub created_at : Option ℕ
  pub updated_at : Option ℕ

-- Where the fields are pointers, `none` is nil.
pub record ExpandedFormation : Type 0 where
  pub app : Option App
  pub release : Option Release
  pub artifact : Option Artifact
  pub processes : Map Text ℤ

pub record Job : Type 0 where
  pub id : Text
  pub type : Text
  pub release_id : Text
  pub cmd : List Text

pub record NewJob : Type 0 where
  pub release_id : Text
  pub cmd : List Text
  pub env : Map Text Text
  pub tty : Bool
  pub columns : ℤ
  pub lines : ℤ

-- docker.Config
pub record Config : Type 0 where
  pub cmd : List Text
  pub env : List Text
  pub image : Text
  pub volumes : List Text
  pub exposed_ports : List Text
  pub attach_stdin : Bool
  pub attach_stdout : Bool
  pub attach_stderr : Bool
  pub tty : Bool
  pub open_stdin : Bool
  pub stdin_once : Bool

-- docker.HostConfig
pub record HostConfig : Type 0 where
  pub port_bindings : Map Text (List Text)
  pub publish_all_ports : Bool

-- host.Job
pub record HostJob : Type 0 where
  pub id : Text
  pub tcp_ports : ℤ
  pub attributes : Map Text Text
  pub config : Config
  pub host_config : Option HostConfig

-- host.Host
pub record Host : Type 0 where
  pub id : Text
  pub jobs : List HostJob

-- host.AttachReq; `flags` names the flags that are set.
pub record AttachReq : Type 0 where
  pub job_id : Text
  pub flags : List Text
  pub height : ℤ
  pub width : ℤ

pub record Key : Type 0 where
  pub id : Text
  pub key : Text
  pub comment : Text
  pub created_at : Option ℕ

pub record Provider : Type 0 where
  pub id : Text
  pub url : Text
  pub name : Text
  pub created_at : Option ℕ
  pub updated_at : Option ℕ

pub record Resource : Type 0 where
  pub id : Text
  pub provider_id : Text
  pub external_id : Text
  pub env : Map Text Text
  pub apps : List Text
  pub created_at : Option ℕ

pub record ResourceReq : Type 0 where
  pub provider_id : Text
  pub apps : List Text
  pub config : Option Text
