-- ===== src/Service/Tests.antt =====
-- src/service: runs of the commands on a platform that only remembers the status.
use gsc_fq.Common.{◌≡◌, refl, Bool, true, false, Option, none, some, [], codes}
use gsc_fq.Common.Results.{Result, ok, err}
use gsc_fq.Service.{
  Platform, ServiceError, service_not_found, not_installed, running, handle_service_command, done,
  showed, exit_1,
}
use gsc_fq.Service.Commands.{IsPlatform, Leaves, handle_service_command-status}

abbrev active_of : Option Bool → Result Bool ServiceError
active_of none = err service_not_found
active_of (some active) = ok active

-- The service, if it is installed, is active or not.
abbrev memory : Platform (Option Bool)
memory = record {
  status = λ s name. active_of s;
  install = λ s config. ok (some false);
  remove = λ s name. ok none;
  start = λ s name. ok (some true);
  stop = λ s name. ok (some false);
  create_dir_all = λ s path. ok s;
  chmod = λ s mode path. ok s;
  parent = λ path. none;
}

memory-IsPlatform : IsPlatform memory
memory-IsPlatform = record {
  started = λ s active e. (some true, refl, refl);
  halted = λ s active e. (some false, refl, refl);
  removed = λ s e. (none, refl, refl);
}

restarted : Leaves memory (some true) (codes "restart") running
restarted = (handle_service_command-status memory memory-IsPlatform (some true) true refl).2

installed :
    handle_service_command memory none (ok (codes "/usr/bin/gsc-fq")) (codes "install")
    ≡ ok (done (some false))
unfolding handle_service_command
installed = refl

asked : handle_service_command memory none (err []) (codes "status") ≡ ok (showed not_installed)
unfolding handle_service_command
asked = refl

unknown : handle_service_command memory none (err []) (codes "pause") ≡ ok exit_1
unfolding handle_service_command
unknown = refl
