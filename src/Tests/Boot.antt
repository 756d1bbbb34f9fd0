-- ===== src/Tests/Boot.antt =====
-- A concrete boot (src/init/init.rs).
use nautilus_messaging_relay.Common.{
  ◌+◌, ◌*◌, ◌/◌, pos, false, some, [], ◌∷◌, ◌++◌, length, ok, err, ◌≡◌, refl, ◌==◌, string_eq,
}
use nautilus_messaging_relay.Models.Message.{Bytes}
use nautilus_messaging_relay.Boot.Kernel
use nautilus_messaging_relay.Boot.Kernel.{Os, Trace}
use nautilus_messaging_relay.Boot.System.{urandom, seed_entropy}
use nautilus_messaging_relay.Boot.Nitro.{get_entropy}
use nautilus_messaging_relay.Boot.Init.{mount_points, init_rootfs, main}
use nautilus_messaging_relay.Boot.Reboot.{Runs, main-reboots}
use nautilus_messaging_relay.Boot.Entropy.{Answers, seed_entropy-seeds}
use nautilus_messaging_relay.Boot.Mounts.{calls_of, all_calls, init_rootfs-calls}

-- No mount succeeds, only /dev exists, and the script cannot be run.
abbrev machine : Os
machine = record {
  clock = λ t. (3, 4000);
  exists = λ t path. ok (path == "/dev");
  create_dir_all = λ t path. ok tt;
  open_file = λ t path. ok tt;
  succeeds = λ t call. false;
  socket = λ t family. pos 3;
  af_vsock = 40;
  nsm_lib_init = λ t. pos 4;
  nsm_get_random = λ t fd. some (7 ∷ []);
  write_all = λ t path sample. ok tt;
  spawn = λ t program argument. err "no such file";
  wait = λ t. ok "exit status: 0";
}

machine-Answers : Answers machine
machine-Answers = record {
  device = λ t. refl;
  random = λ t fd. (7 ∷ [], refl);
  opens = λ t. refl;
  writes = λ t sample. refl;
}

main-reboots_example : (t : Trace) × ((main machine []).0 ≡ t ++ Kernel.reboot ∷ []) × Runs t
main-reboots_example = main-reboots machine

seed_entropy-seeds_example :
    (bytes : Bytes) × (before : Trace) × (length bytes ≡ 256 * ((300 + 255) / 256))
    × (seed_entropy machine 300 (get_entropy machine) []
        ≡ (before ++ Kernel.write_all urandom bytes ∷ [], ok (length bytes)))
seed_entropy-seeds_example = seed_entropy-seeds machine machine-Answers 300 []

init_rootfs-calls_example :
    calls_of (init_rootfs machine []).0
    ≡ calls_of [] ++ all_calls (λ path. path == "/dev") mount_points
init_rootfs-calls_example = init_rootfs-calls machine (λ path. path == "/dev") (λ t path. refl) []
