-- ===== src/Boot/Entropy.antt =====
-- How much entropy the first process seeds (src/aws/src/lib.rs and src/system/src/lib.rs).
use nautilus_messaging_relay.Common.{
  ℕ, zero, suc, ◌+◌, ◌-◌, ◌*◌, ◌/◌, ◌≤◌, ◌<◌, ℤ, pos, ltb, ltb→lt, ltb_ℤ, length, length-append,
  length-take, false, Bool-cases, [], ◌∷◌, ◌++◌, ok, ◌≡◌, refl, ap, ◌∙◌, arith, inl, inr, some,
}
use nautilus_messaging_relay.Models.Message.{Bytes}
use nautilus_messaging_relay.Boot.Kernel
use nautilus_messaging_relay.Boot.Kernel.{Os, Trace, ◌>>=◌, ask}
use nautilus_messaging_relay.Boot.System.{
  written_size, urandom, write_sample, seed_sample, seed_entropy,
}
use nautilus_messaging_relay.Boot.Nitro.{zeros, buffer, collect_entropy, entropy_from, get_entropy}

length-zeros : (n : ℕ) → length (zeros n) ≡ n
length-zeros zero = refl
length-zeros (suc n) = ap suc (length-zeros n)

length-buffer : (front : Bytes) → length (buffer front) ≡ 256
length-buffer front =
    omega (
      arith,
      length-take 256 (front ++ zeros 256),
      length-append front (zeros 256),
      length-zeros 256,
    )

-- The rounds that fill up `n` bytes to `size` bytes.
abbrev pub rounds : ℕ → ℕ → ℕ
rounds size n = (size - n + 255) / 256

-- The device is there and answers every call, and the kernel's pool can be opened and written.
pub record Answers (os : Os) : Type 0 where
  pub device : (t : Trace) → ltb_ℤ (os.nsm_lib_init t) (pos 0) ≡ false
  pub random : (t : Trace) (fd : ℤ) → (front : Bytes) × (os.nsm_get_random t fd ≡ some front)
  pub opens : (t : Trace) → os.open_file t urandom ≡ ok tt
  pub writes : (t : Trace) (sample : Bytes) → os.write_all t urandom sample ≡ ok tt

module _ (os : Os) (answers : Answers os) where
  -- The loop ends by its test, with fuel for each byte that is missing.
  collect_entropy-ends :
      (fuel : ℕ) (fd : ℤ) (size : ℕ) (dest : Bytes) (t : Trace)
      → size ≤ length dest + fuel
      → (bytes : Bytes) × ((collect_entropy os fuel fd size dest t).1 ≡ ok bytes)
        × (length bytes ≡ length dest + 256 * rounds size (length dest))
  unfolding collect_entropy
  collect_entropy-ends zero fd size dest t h = (dest, refl, omega arith)
  collect_entropy-ends (suc fuel) fd size dest t h = elim (Bool-cases (ltb (length dest) size)) [
    | inr full ↦ (dest, rw (collect_entropy, full) refl, ground arith)
    | inl more ↦
        let lt = ltb→lt (length dest) size more in
        let (front, q) = answers.random t fd in
        let longer = length-append dest (buffer front) in
        let full = length-buffer front in
        let (bytes, e, n) =
          collect_entropy-ends fuel fd size (dest ++ buffer front)
            (t ++ Kernel.nsm_get_random fd 256 ∷ []) (omega arith) in
        (
          bytes,
          rw (collect_entropy, more, q) e,
          step (length dest) size _ (length (dest ++ buffer front)) lt (omega arith) n,
        )
  ]
    where
      step :
          (n size l m : ℕ)
          → n < size
          → m ≡ n + 256
          → l ≡ m + 256 * rounds size m
          → l ≡ n + 256 * rounds size n
      step n size l m lt e h = omega arith

  -- When the device answers every call and the kernel's pool can be written, seeding ends, for any
  -- number of bytes asked for: it writes this number of bytes rounded up to a multiple of 256 to the pool, as its
  -- last call, and returns their number.
  pub seed_entropy-seeds :
      (size : ℕ) (t : Trace)
      → (bytes : Bytes) × (before : Trace) × (length bytes ≡ 256 * ((size + 255) / 256))
        × (seed_entropy os size (get_entropy os) t
            ≡ (before ++ Kernel.write_all urandom bytes ∷ [], ok (length bytes)))
  unfolding seed_entropy get_entropy
  seed_entropy-seeds size t =
      let t1 = t ++ Kernel.nsm_lib_init ∷ [] in
      let fd = os.nsm_lib_init t in
      let (bytes, e, n) = collect_entropy-ends size fd size [] t1 (omega arith) in
      let t2 = (collect_entropy os size fd size [] t1).0 in
      (
        bytes,
        t2 ++ Kernel.open_file urandom ∷ [],
        omega arith,
        ap (λ b. seed_sample os (entropy_from os size fd b t1).1 (entropy_from os size fd b t1).0)
              (answers.device t)
            ∙ ap (λ r. seed_sample os r t2) e
            ∙ ap (λ r. write_sample os bytes r (t2 ++ Kernel.open_file urandom ∷ []))
                (answers.opens t2)
            ∙ ap
                (λ r. (
                  t2 ++ Kernel.open_file urandom ∷ [] ++ Kernel.write_all urandom bytes ∷ [],
                  written_size os bytes r,
                ))
                (answers.writes (t2 ++ Kernel.open_file urandom ∷ []) bytes),
      )
