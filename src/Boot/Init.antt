-- ===== src/Boot/Init.antt =====
-- src/init/init.rs: the first process of the enclave.
use nautilus_messaging_relay.Common.{ℕ, String, Bool, true, false, List, [], ◌∷◌, Result, ok, err}
use nautilus_messaging_relay.Common.Text.{◌+s◌, show_nat}
use nautilus_messaging_relay.Boot.Kernel
use nautilus_messaging_relay.Boot.Kernel.{
  Os, M, MountFlag, nodev, nosuid, noexec, return, ◌>>=◌, ◌>>◌, emit, ask,
}
use nautilus_messaging_relay.Boot.System.{
  SystemError, dmesg, eprintln, eprint_error, mount, freopen, reboot, seed_entropy,
}
use nautilus_messaging_relay.Boot.Nitro.{get_entropy, init_platform}

pub record MountPoint : Type 0 where
  pub src : String
  pub target : String
  pub fstype : String
  pub flags : List MountFlag
  pub options : String

abbrev no_dse : List MountFlag
no_dse = nodev ∷ nosuid ∷ noexec ∷ []

abbrev no_se : List MountFlag
no_se = nosuid ∷ noexec ∷ []

abbrev mount_point : String → String → String → List MountFlag → String → MountPoint
mount_point src target fstype flags options = record {
  src = src;
  target = target;
  fstype = fstype;
  flags = flags;
  options = options;
}

abbrev pub mount_points : List MountPoint
mount_points =
    mount_point "devtmpfs" "/dev" "devtmpfs" no_se "mode=0755"
    ∷ mount_point "devpts" "/dev/pts" "devpts" no_se ""
    ∷ mount_point "shm" "/dev/shm" "tmpfs" no_dse "mode=0755"
    ∷ mount_point "proc" "/proc" "proc" no_dse "hidepid=2"
    ∷ mount_point "tmpfs" "/run" "tmpfs" no_dse "mode=0755"
    ∷ mount_point "tmpfs" "/tmp" "tmpfs" no_dse ""
    ∷ mount_point "sysfs" "/sys" "sysfs" no_dse ""
    ∷ mount_point "cgroup_root" "/sys/fs/cgroup" "tmpfs" no_dse "mode=0755"
    ∷ []

-- `fs::exists(target).unwrap_or(false)`
abbrev pub or_false : Result String Bool → Bool
or_false (ok b) = b
or_false (err e) = false

module _ (os : Os) where
  -- The error of the standard library, and that of the system, is printed.
  abbrev pub report_text : Result String (Unit {0}) → String → M (Unit {0})
  report_text (ok _) line = dmesg os line
  report_text (err e) line = eprintln os e

  abbrev pub report : Result SystemError (Unit {0}) → String → M (Unit {0})
  report (ok _) line = dmesg os line
  report (err e) line = eprint_error os e

  abbrev pub report_error : Result SystemError (Unit {0}) → M (Unit {0})
  report_error (ok _) = return tt
  report_error (err e) = eprint_error os e

  abbrev pub create_if : Bool → String → M (Unit {0})
  create_if false target = return tt
  create_if true target = do
    created ← ask (Kernel.create_dir_all target) (λ t. os.create_dir_all t target)
    report_text created ("Created mount point " +s target)

  unfoldable pub mount_all : List MountPoint → M (Unit {0})
  unfolding dmesg eprint_error mount
  mount_all [] = return tt
  mount_all (p ∷ ps) = do
    exists ← ask (Kernel.exists p.target) (λ t. os.exists t p.target)
    create_if (or_false exists) p.target
    mounted ← mount os p.src p.target p.fstype p.flags p.options
    report mounted ("Mounted " +s p.target)
    mount_all ps

  unfoldable pub init_rootfs : M (Unit {0})
  unfolding mount_all
  init_rootfs = mount_all mount_points

  abbrev pub reopen : String → ℕ → M (Unit {0})
  reopen mode file = freopen os "/dev/console" mode file >>= report_error

  unfoldable pub init_console : M (Unit {0})
  unfolding freopen eprint_error
  init_console = do reopen "r" 0; reopen "w" 1; reopen "w" 2

  abbrev pub report_size : Result SystemError ℕ → M (Unit {0})
  report_size (ok size) = dmesg os ("Seeded kernel with entropy: " +s show_nat size)
  report_size (err e) = eprint_error os e

  unfoldable pub boot : M (Unit {0})
  unfolding init_rootfs init_console init_platform seed_entropy get_entropy dmesg eprint_error
  boot = do
    init_rootfs
    init_console
    init_platform os
    seeded ← seed_entropy os 4096 (get_entropy os)
    report_size seeded

  abbrev pub report_exit : Result String String → M (Unit {0})
  report_exit (ok status) = dmesg os ("run.sh exited with status: " +s status)
  report_exit (err e) = eprintln os ("Error waiting for run.sh: " +s e)

  abbrev pub run_child : Result String (Unit {0}) → M (Unit {0})
  run_child (err e) = eprintln os ("Failed to execute run.sh: " +s e)
  run_child (ok _) = do
    dmesg os "Spawned run.sh script"
    status ← ask Kernel.wait os.wait
    report_exit status

  unfoldable pub main : M (Unit {0})
  unfolding boot dmesg reboot
  main = do
    boot
    dmesg os "EnclaveOS Booted"
    emit (Kernel.set_var "SSL_CERT_FILE" "/ca-certificates.crt")
    emit (Kernel.set_var "PATH" "/bin:/sbin:/usr/bin:/usr/sbin:/")
    child ← ask (Kernel.spawn "/sh" "/run.sh") (λ t. os.spawn t "/sh" "/run.sh")
    run_child child
    reboot os
