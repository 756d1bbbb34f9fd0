-- ===== src/Boot/System.antt =====
-- src/system/src/lib.rs: the calls of the system, with their errors.
use nautilus_messaging_relay.Common.{
  ℕ, suc, ◌-◌, ◌/◌, ◌==◌, nat_eq, ℤ, String, Option, none, some, List, [], ◌∷◌, if◌then◌else◌,
  length, Result, ok, err,
}
use nautilus_messaging_relay.Common.Text.{◌+s◌, show_nat, as_bytes, codes}
use nautilus_messaging_relay.Models.Message.{Bytes}
use nautilus_messaging_relay.Boot.Kernel
use nautilus_messaging_relay.Boot.Kernel.{Os, M, Trace, MountFlag, return, ◌>>=◌, ◌>>◌, emit, ask}

pub record SystemError : Type 0 where
  pub message : String

spaces : ℕ → String
spaces ℕ.zero = ""
spaces (suc n) = " " +s spaces n

-- `{: >4}`
unfoldable pub pad_4 : String → String
unfolding spaces
pad_4 s = spaces (4 - length (codes s)) +s s

-- The position of the first zero byte.
unfoldable pub nul_position : List ℕ → Option ℕ
nul_position [] = none
nul_position (b ∷ bs) =
    let rest : Option ℕ = elim (nul_position bs) [ none ↦ none | some n ↦ some (suc n) ] in
    if b == 0 then some 0 else rest

-- `CString::new` of the text, which the error names
unfoldable pub cstring : String → String → Result SystemError (Unit {0})
unfolding nul_position
cstring name s = elim (nul_position (as_bytes s)) [
  | none ↦ ok tt
  | some n ↦ err (record {
    message =
        "Failed to create CString for "
        +s name
        +s ": nul byte found in provided data at position: "
        +s show_nat n;
  })
]

abbrev pub urandom : String
urandom = "/dev/urandom"

module _ (os : Os) where
  unfoldable pub boot_time : Trace → String
  unfolding pad_4
  boot_time t =
      let (tv_sec, tv_nsec) = os.clock t in
      "[ " +s pad_4 (show_nat tv_sec) +s "." +s show_nat (tv_nsec / 1000) +s "]"

  unfoldable pub dmesg : String → M (Unit {0})
  unfolding boot_time
  dmesg message t = emit (Kernel.printed (boot_time t +s " " +s message)) t

  -- `eprintln!` of a text, and of a system error
  abbrev pub eprintln : String → M (Unit {0})
  eprintln line = emit (Kernel.printed_error line)

  unfoldable pub eprint_error : SystemError → M (Unit {0})
  unfolding boot_time
  eprint_error e t = eprintln (boot_time t +s " " +s e.message) t

  unfoldable pub reboot : M (Unit {0})
  reboot = emit Kernel.reboot

  -- A call that reports only whether it fails, for which `message` stands.
  abbrev pub try : Kernel.Event → String → M (Result SystemError (Unit {0}))
  try call message = do
    done ← ask call (λ t. os.succeeds t call)
    return (if done then ok tt else err (record { message = message }))

  abbrev pub after :
      Result SystemError (Unit {0})
      → M (Result SystemError (Unit {0}))
      → M (Result SystemError (Unit {0}))
  after (err e) next = return (err e)
  after (ok _) next = next

  unfoldable pub mount :
      String → String → String → List MountFlag → String → M (Result SystemError (Unit {0}))
  unfolding cstring
  mount src target fstype flags options = after (cstring "src" src) (
      after (cstring "fstype" fstype) (
        after (cstring "data" options) (
          after (cstring "target" target)
            (try (Kernel.mount src target fstype flags options) ("Failed to mount: " +s target)))))

  unfoldable pub freopen : String → String → ℕ → M (Result SystemError (Unit {0}))
  unfolding cstring
  freopen filename mode file = after (cstring "filename" filename) (
      after (cstring "mode" mode)
        (try (Kernel.freopen filename mode file) ("Failed to freopen: " +s filename)))

  unfoldable pub insmod : String → M (Result SystemError (Unit {0}))
  insmod path = do
    file ← ask (Kernel.open_file path) (λ t. os.open_file t path)
    elim file [
      | err e ↦ return (err (record { message = "Failed to open file: " +s e }))
      | ok _ ↦ try (Kernel.finit_module path) ("Failed to insert kernel module: " +s path)
    ]

  unfoldable pub socket_connect : ℕ → ℕ → ℕ → M (Result SystemError ℤ)
  socket_connect family port cid = do
    fd ← ask (Kernel.socket family) (λ t. os.socket t family)
    done ←
        ask (Kernel.connect fd family port cid)
          (λ t. os.succeeds t (Kernel.connect fd family port cid))
    return (
        if done
        then ok fd
        else err (record { message = "Failed to connect to socket: " +s show_nat family }))

  -- `seed_entropy` from the answer of the source, from the file opened, and from what is written, on.
  abbrev pub written_size : Bytes → Result String (Unit {0}) → Result SystemError ℕ
  written_size sample (err _) = err (record { message = "Failed to write to /dev/urandom" })
  written_size sample (ok _) = ok (length sample)

  abbrev pub write_sample : Bytes → Result String (Unit {0}) → M (Result SystemError ℕ)
  write_sample sample (err _) t = (t, err (record { message = "Failed to open /dev/urandom" }))
  write_sample sample (ok _) t =
      let (t', written) =
        ask (Kernel.write_all urandom sample) (λ t. os.write_all t urandom sample) t in
      (t', written_size sample written)

  abbrev pub seed_sample : Result SystemError Bytes → M (Result SystemError ℕ)
  seed_sample (err e) t = (t, err e)
  seed_sample (ok sample) t =
      let (t', random_fd) = ask (Kernel.open_file urandom) (λ t. os.open_file t urandom) t in
      write_sample sample random_fd t'

  unfoldable pub seed_entropy : ℕ → (ℕ → M (Result SystemError Bytes)) → M (Result SystemError ℕ)
  seed_entropy size source = source size >>= seed_sample
