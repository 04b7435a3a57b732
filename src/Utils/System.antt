-- ===== src/Utils/System.antt =====
-- src/utils/system.rs, for Linux: the checks of the system and of a container. What the operating
-- system answers is an argument; the limits and settings are read and never acted on.
use gsc_fq.Common.{◌≡◌, refl, Bool, false, ◌||◌, List, ◌++◌, Bytes, codes}
use gsc_fq.Common.Results.{Result, ok, err, ◌>>=◌, map_err}
use gsc_fq.Error.{SystemError, system_call_failed}

-- The answers to the two calls of `pipe`, to the write and to splice.
pub record SpliceTest : Type 0 where
  pub first_pipe : Result (Unit {0}) Bytes
  pub write_all : Result (Unit {0}) Bytes
  pub second_pipe : Result (Unit {0}) Bytes
  pub splice : Result (Unit {0}) Bytes

abbrev pub failed : Bytes → Result (Unit {0}) Bytes → Result (Unit {0}) SystemError
failed what r = map_err (λ e. system_call_failed (what ++ e)) r

-- What splice itself answers is dropped.
pub check_splice_availability : SpliceTest → Result (Unit {0}) SystemError
check_splice_availability t = do
  _ ← failed (codes "Failed to create test pipe: ") t.first_pipe
  failed (codes "Failed to create second test pipe: ") t.second_pipe

-- The contents of the three files of /proc/sys, or their errors.
pub check_linux_network_settings :
    List (Result Bytes Bytes) → SpliceTest → Result (Unit {0}) SystemError
unfolding check_splice_availability
check_linux_network_settings settings t = check_splice_availability t

-- With the answer of `getrlimit` for open files.
pub check_file_descriptor_limits : Result Bytes Bytes → Result (Unit {0}) SystemError
check_file_descriptor_limits limit = ok tt

-- With /proc/meminfo.
pub check_memory_limits : Result Bytes Bytes → Result (Unit {0}) SystemError
check_memory_limits meminfo = ok tt

pub check_system_requirements :
    Result Bytes Bytes
    → List (Result Bytes Bytes)
    → SpliceTest
    → Result Bytes Bytes
    → Result (Unit {0}) SystemError
unfolding check_file_descriptor_limits check_linux_network_settings check_memory_limits
check_system_requirements limit settings t meminfo = do
  _ ← check_file_descriptor_limits limit
  _ ← check_linux_network_settings settings t
  check_memory_limits meminfo

pub optimize_system_settings : Result (Unit {0}) SystemError
optimize_system_settings = ok tt

-- The name of the operating system stands for the environment too.
pub record SystemInfo : Type 0 where
  pub os : Bytes
  pub arch : Bytes
  pub target_env : Bytes
  pub family : Bytes

pub get_system_info : Bytes → Bytes → Bytes → SystemInfo
get_system_info os arch family = record { os = os; arch = arch; target_env = os; family = family }

abbrev names_container : (Bytes → Bytes → Bool) → Result Bytes Bytes → Bool
names_container holds (ok text) = holds text (codes "docker") || holds text (codes "containerd")
names_container holds (err e) = false

-- Whether there is a /.dockerenv, what /proc/1/cgroup holds, if it can be read, and whether the
-- variable `container` is set; `holds` is `str::contains`.
pub is_running_in_container : (Bytes → Bytes → Bool) → Bool → Result Bytes Bytes → Bool → Bool
is_running_in_container holds dockerenv cgroup variable =
    dockerenv || names_container holds cgroup || variable

-- The system meets the requirements where both pipes can be made: no limit, setting or amount of
-- memory counts, nor whether splice works.
check_system_requirements-ok :
    (limit meminfo : Result Bytes Bytes) (settings : List (Result Bytes Bytes)) (t : SpliceTest)
    → t.first_pipe ≡ ok tt
    → t.second_pipe ≡ ok tt
    → check_system_requirements limit settings t meminfo ≡ ok tt
unfolding check_system_requirements check_linux_network_settings
check_system_requirements-ok limit meminfo settings t first second =
    let works : check_splice_availability t ≡ ok tt =
      rw (first, check_splice_availability, second) refl in
    rw works refl

check_system_requirements-no_pipe :
    (limit meminfo : Result Bytes Bytes) (settings : List (Result Bytes Bytes)) (t : SpliceTest)
    (e : Bytes)
    → t.first_pipe ≡ err e
    → check_system_requirements limit settings t meminfo
      ≡ err (system_call_failed (codes "Failed to create test pipe: " ++ e))
unfolding check_system_requirements check_linux_network_settings
check_system_requirements-no_pipe limit meminfo settings t e first =
    let fails : check_splice_availability t
        ≡ err (system_call_failed (codes "Failed to create test pipe: " ++ e)) =
      rw (first, check_splice_availability) refl in
    rw fails refl
