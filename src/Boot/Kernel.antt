-- ===== src/Boot/Kernel.antt =====
-- What the first process of the enclave asks of the kernel and of other programs.
--
-- The program runs against an `Os`: each answer is any function of the trace so far, so it may differ
-- from call to call. The trace lists the calls and the printed lines, the last one at the end; reading
-- the clock leaves no entry.
use nautilus_messaging_relay.Common.{ℕ, ℤ, String, Bool, Option, List, [], ◌∷◌, ◌++◌, Result}
use nautilus_messaging_relay.Models.Message.{Bytes}

pub data MountFlag : Type 0 where
  nodev nosuid noexec : MountFlag

pub data Event : Type 0 where
  -- standard output and standard error
  printed printed_error : String → Event
  exists create_dir_all : (path : String) → Event
  mount : (src target fstype : String) → List MountFlag → (options : String) → Event
  freopen : (filename mode : String) (file : ℕ) → Event
  open_file : (path : String) → Event
  finit_module : (path : String) → Event
  socket : (family : ℕ) → Event
  connect : (fd : ℤ) (family port cid : ℕ) → Event
  write_byte : (fd : ℤ) (byte : ℕ) → Event
  read_byte close : (fd : ℤ) → Event
  nsm_lib_init : Event
  nsm_get_random : (fd : ℤ) (size : ℕ) → Event
  write_all : (path : String) → Bytes → Event
  set_var : (name value : String) → Event
  spawn : (program argument : String) → Event
  wait reboot : Event

abbrev pub Trace : Type 0
Trace = List Event

-- An error of the standard library is given by its text.
pub record Os : Type 0 where
  -- the seconds and the nanoseconds since the boot
  pub clock : Trace → ℕ × ℕ
  pub exists : Trace → String → Result String Bool
  pub create_dir_all : Trace → String → Result String (Unit {0})
  pub open_file : Trace → String → Result String (Unit {0})
  -- whether `mount`, `freopen`, `finit_module` or `connect` reports no failure
  pub succeeds : Trace → Event → Bool
  pub socket : Trace → ℕ → ℤ
  pub af_vsock : ℕ
  pub nsm_lib_init : Trace → ℤ
  -- what `nsm_get_random` writes to the front of its buffer, `none` where it is no success
  pub nsm_get_random : Trace → ℤ → Option Bytes
  pub write_all : Trace → String → Bytes → Result String (Unit {0})
  pub spawn : Trace → String → String → Result String (Unit {0})
  -- the text of the exit status
  pub wait : Trace → Result String String

-- A part of the program goes from the trace so far to the trace and a result.
abbrev pub M : Type 0 → Type 0
M A = Trace → Trace × A

abbrev pub return : {A : Type 0} → A → M A
return a t = (t, a)

infixl 5 ◌>>=◌ ◌>>◌
abbrev pub ◌>>=◌ : {A B : Type 0} → M A → (A → M B) → M B
◌>>=◌ m f t = let (t', a) = m t in f a t'

abbrev pub ◌>>◌ : {B : Type 0} → M (Unit {0}) → M B → M B
m >> k = m >>= λ _. k

-- A call without an answer, and one with an answer.
abbrev pub emit : Event → M (Unit {0})
emit e t = (t ++ e ∷ [], tt)

abbrev pub ask : {A : Type 0} → Event → (Trace → A) → M A
ask e answer t = (t ++ e ∷ [], answer t)
