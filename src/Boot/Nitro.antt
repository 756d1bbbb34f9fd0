-- ===== src/Boot/Nitro.antt =====
-- src/aws/src/lib.rs: the platform of the enclave and its source of entropy (the crate `nsm_lib`).
use nautilus_messaging_relay.Common.{
  ℕ, zero, suc, ℤ, pos, ltb, ltb_ℤ, Bool, true, false, none, some, [], ◌∷◌, ◌++◌, length, take,
  Result, ok, err,
}
use nautilus_messaging_relay.Models.Message.{Bytes}
use nautilus_messaging_relay.Boot.Kernel
use nautilus_messaging_relay.Boot.Kernel.{Os, M, return, ◌>>=◌, ◌>>◌, emit, ask}
use nautilus_messaging_relay.Boot.System.{SystemError, dmesg, eprint_error, insmod, socket_connect}

abbrev pub zeros : ℕ → Bytes
zeros zero = []
zeros (suc n) = 0 ∷ zeros n

-- The buffer of 256 zero bytes after its front is written.
abbrev pub buffer : Bytes → Bytes
buffer front = take 256 (front ++ zeros 256)

module _ (os : Os) where
  abbrev pub send_heartbeat : Result SystemError ℤ → M (Unit {0})
  send_heartbeat (err e) = eprint_error os e
  send_heartbeat (ok fd) = do
    emit (Kernel.write_byte fd 183)
    emit (Kernel.read_byte fd)
    emit (Kernel.close fd)
    dmesg os "Sent NSM heartbeat"

  unfoldable pub nitro_heartbeat : M (Unit {0})
  unfolding dmesg eprint_error socket_connect
  nitro_heartbeat = socket_connect os os.af_vsock 9000 3 >>= send_heartbeat

  -- The loop, which ends by its test before `fuel` rounds are over.
  unfoldable pub collect_entropy : ℕ → ℤ → ℕ → Bytes → M (Result SystemError Bytes)
  collect_entropy zero nsm_fd size dest t = (t, ok dest)
  collect_entropy (suc fuel) nsm_fd size dest t = elim (ltb (length dest) size) [
    | false ↦ (t, ok dest)
    | true ↦
        let (t', random) =
          ask (Kernel.nsm_get_random nsm_fd 256) (λ t. os.nsm_get_random t nsm_fd) t in
        elim random [
          | none ↦ (t', err (record { message = "Failed to get entropy from NSM device" }))
          | some front ↦ collect_entropy fuel nsm_fd size (dest ++ buffer front) t'
        ]
  ]

  -- The device is connected to or not.
  abbrev pub entropy_from : ℕ → ℤ → Bool → M (Result SystemError Bytes)
  entropy_from size nsm_fd true t =
      (t, err (record { message = "Failed to connect to NSM device" }))
  entropy_from size nsm_fd false t = collect_entropy size nsm_fd size [] t

  unfoldable pub get_entropy : ℕ → M (Result SystemError Bytes)
  unfolding collect_entropy
  get_entropy size = do
    nsm_fd ← ask Kernel.nsm_lib_init os.nsm_lib_init
    entropy_from size nsm_fd (ltb_ℤ nsm_fd (pos 0))

  abbrev pub report_module : Result SystemError (Unit {0}) → M (Unit {0})
  report_module (ok _) = dmesg os "Loaded nsm.ko"
  report_module (err e) = eprint_error os e

  unfoldable pub init_platform : M (Unit {0})
  unfolding nitro_heartbeat insmod dmesg eprint_error
  init_platform = do nitro_heartbeat; inserted ← insmod os "/nsm.ko"; report_module inserted
