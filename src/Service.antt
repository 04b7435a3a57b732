-- ===== src/Service.antt =====
-- src/service: the service of the operating system, as manager.rs drives it through the package
-- `service_manager`, and the commands of cli.rs, for Unix. The platform with its files is a parameter;
-- messages to the terminal are left out, an error is `AppError::Internal` with the text of its cause.
use gsc_fq.Common.{
  Bool, true, false, Option, none, some, List, [], ◌∷◌, if◌then◌else◌, ◌==◌, Bytes, codes, bytes_eq,
}
use gsc_fq.Common.Results.{Result, ok, err, ◌>>=◌}
pub mod Commands
mod Tests

pub data ServiceError : Type 0 where
  service_not_found : ServiceError
  service_failed : Bytes → ServiceError

pub record ServiceConfig : Type 0 where
  pub name : Bytes
  pub exec_path : Bytes
  pub args : List Bytes
  pub working_dir : Bytes
  pub environment : List (Bytes × Bytes)
  pub autostart : Bool
  pub stdout : Bytes
  pub stderr : Bytes

-- `S` is the state of the machine. The status says whether the service is active.
pub record Platform (S : Type 0) : Type 0 where
  pub status : S → Bytes → Result Bool ServiceError
  pub install : S → ServiceConfig → Result S Bytes
  pub remove : S → Bytes → Result S Bytes
  pub start : S → Bytes → Result S Bytes
  pub stop : S → Bytes → Result S Bytes
  pub create_dir_all : S → Bytes → Result S Bytes
  pub chmod : S → Bytes → Bytes → Result S Bytes
  pub parent : Bytes → Option Bytes

pub data ServiceStatus : Type 0 where
  not_installed stopped running : ServiceStatus

pub as_str : ServiceStatus → Bytes
as_str not_installed = codes "not installed"
as_str stopped = codes "stopped"
as_str running = codes "running"

abbrev pub service_name : Bytes
service_name = codes "gsc-fq"

abbrev pub get_log_path : Bytes
get_log_path = codes "/var/log/gsc-fq"

abbrev pub get_config_path : Bytes
get_config_path = codes "/etc/gsc-fq"

abbrev pub or_root : Option Bytes → Bytes
or_root none = codes "/"
or_root (some p) = p

module _ {S : Type 0} (platform : Platform S) where
  open platform use {status, create_dir_all, chmod, parent}

  -- The configuration of the service for an executable.
  pub service_config : Bytes → ServiceConfig
  service_config exe = record {
    name = service_name;
    exec_path = exe;
    args = codes "service-mode" ∷ [];
    working_dir = or_root (parent exe);
    environment = (codes "RUST_LOG", codes "info") ∷ [];
    autostart = true;
    stdout = codes "/var/log/gsc-fq/gsc-fq.log";
    stderr = codes "/var/log/gsc-fq/gsc-fq.err";
  }

  unfoldable pub install : S → Bytes → Result S Bytes
  unfolding service_config
  install s exe = platform.install s (service_config exe)

  unfoldable pub is_installed : S → Result Bool Bytes
  is_installed s = elim (status s service_name) [
    | ok active ↦ ok true
    | err service_not_found ↦ ok false
    | err (service_failed e) ↦ err e
  ]

  unfoldable pub is_running : S → Result Bool Bytes
  is_running s = elim (status s service_name) [
    | ok active ↦ ok active
    | err service_not_found ↦ ok false
    | err (service_failed e) ↦ err e
  ]

  unfoldable pub start : S → Result S Bytes
  start s = platform.start s service_name

  unfoldable pub stop : S → Result S Bytes
  stop s = platform.stop s service_name

  unfoldable pub restart : S → Result S Bytes
  unfolding stop start
  restart s = do s' ← stop s; start s'

  unfoldable pub uninstall : S → Result S Bytes
  unfolding is_running stop
  uninstall s = do
    active ← is_running s
    s' ← if active then stop s else ok s
    platform.remove s' service_name

  -- The status of an installed service, which is asked for again.
  unfoldable pub status_of : S → Bool → Result ServiceStatus Bytes
  status_of s false = ok not_installed
  status_of s true = elim (status s service_name) [
    | ok true ↦ ok running
    | ok false ↦ ok stopped
    | err service_not_found ↦ ok not_installed
    | err (service_failed e) ↦ err e
  ]

  unfoldable pub get_status : S → Result ServiceStatus Bytes
  unfolding is_installed status_of
  get_status s = do installed ← is_installed s; status_of s installed

  unfoldable pub ensure_log_directory : S → Result S Bytes
  ensure_log_directory s = do
    s' ← create_dir_all s get_log_path
    chmod s' (codes "755") get_log_path

  unfoldable pub ensure_config_directory : S → Result S Bytes
  ensure_config_directory s = create_dir_all s get_config_path

  -- The command "install", with the answer of `current_exe`.
  unfoldable pub install_current : S → Result Bytes Bytes → Result S Bytes
  unfolding install ensure_log_directory ensure_config_directory
  install_current s current_exe = do
    exe ← current_exe
    s1 ← ensure_log_directory s
    s2 ← ensure_config_directory s1
    install s2 exe

-- How a command ends: with a state and, for "status", what it shows, or with exit code 1.
pub data Ended (S : Type 0) : Type 0 where
  done : S → Ended S
  showed : ServiceStatus → Ended S
  exit_1 : Ended S

abbrev pub to_done : {S : Type 0} → Result S Bytes → Result (Ended S) Bytes
to_done (ok s) = ok (done s)
to_done (err e) = err e

abbrev pub to_showed : {S : Type 0} → Result ServiceStatus Bytes → Result (Ended S) Bytes
to_showed (ok status) = ok (showed status)
to_showed (err e) = err e

-- The match on the command.
unfoldable pub handle_service_command :
    {S : Type 0} → Platform S → S → Result Bytes Bytes → Bytes → Result (Ended S) Bytes
unfolding install_current uninstall start stop restart get_status
handle_service_command platform s current_exe command =
    if bytes_eq command (codes "install")
    then to_done (install_current platform s current_exe)
    else if bytes_eq command (codes "uninstall")
    then to_done (uninstall platform s)
    else if bytes_eq command (codes "start")
    then to_done (start platform s)
    else if bytes_eq command (codes "stop")
    then to_done (stop platform s)
    else if bytes_eq command (codes "restart")
    then to_done (restart platform s)
    else if bytes_eq command (codes "status")
    then to_showed (get_status platform s)
    else ok exit_1
