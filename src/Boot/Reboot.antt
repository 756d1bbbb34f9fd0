-- ===== src/Boot/Reboot.antt =====
-- How the first process (src/init/init.rs) ends: it reboots, whatever failed before.
use nautilus_messaging_relay.Common.{
  ℕ, zero, suc, ℤ, ltb, length, true, false, Bool, String, List, [], ◌∷◌, ◌++◌, All, Result, ok,
  err, ◌≡◌, ◌≢◌, refl, Result-cases, inl, inr, Bool-cases, Option-cases,
}
use nautilus_messaging_relay.Models.Message.{Bytes}
use nautilus_messaging_relay.Boot.Kernel
use nautilus_messaging_relay.Boot.Kernel.{
  Os, Event, Trace, M, MountFlag, return, ◌>>=◌, ◌>>◌, emit, ask,
}
use nautilus_messaging_relay.Boot.System.{
  SystemError, write_sample, seed_sample, dmesg, eprint_error, after, mount, freopen, insmod,
  socket_connect, reboot, seed_entropy, urandom, cstring,
}
use nautilus_messaging_relay.Boot.Nitro.{
  send_heartbeat, report_module, nitro_heartbeat, entropy_from, collect_entropy, get_entropy,
  init_platform, buffer,
}
use nautilus_messaging_relay.Boot.Init.{
  MountPoint, report_text, report, report_error, create_if, mount_all, mount_points, init_rootfs,
  reopen, init_console, report_size, boot, report_exit, run_child, main,
}

-- No reboot is in the trace.
pub record Runs (t : Trace) : Type 0 where
  pub calls : All (λ e. e ≢ Kernel.reboot) t

All-snoc :
    {A : Type 0} (P : A → Type 0) (xs : List A) (x : A) → All P xs → P x → All P (xs ++ x ∷ [])
All-snoc P [] x a p = (p, tt)
All-snoc P (y ∷ xs) x (q, a) p = (q, All-snoc P xs x a p)

Runs-snoc : (t : Trace) (e : Event) → Runs t → e ≢ Kernel.reboot → Runs (t ++ e ∷ [])
Runs-snoc t e h p = record { calls = All-snoc (λ x. x ≢ Kernel.reboot) t e h.calls p }

-- A part of the program keeps on running.
abbrev pub KeepsRunning : {A : Type 0} → M A → Type 0
KeepsRunning m = (t : Trace) → Runs t → Runs (m t).0

module _ (os : Os) where
  dmesg-KeepsRunning : (line : String) → KeepsRunning (dmesg os line)
  unfolding dmesg
  dmesg-KeepsRunning line t h = Runs-snoc t _ h (λ e. cc)

  eprint_error-KeepsRunning : (x : SystemError) → KeepsRunning (eprint_error os x)
  unfolding eprint_error
  eprint_error-KeepsRunning x t h = Runs-snoc t _ h (λ e. cc)

  report_text-KeepsRunning :
      (r : Result String (Unit {0})) (line : String) → KeepsRunning (report_text os r line)
  report_text-KeepsRunning (ok _) line t h = dmesg-KeepsRunning line t h
  report_text-KeepsRunning (err x) line t h = Runs-snoc t _ h (λ e. cc)

  report-KeepsRunning :
      (r : Result SystemError (Unit {0})) (line : String) → KeepsRunning (report os r line)
  report-KeepsRunning (ok _) line t h = dmesg-KeepsRunning line t h
  report-KeepsRunning (err x) line t h = eprint_error-KeepsRunning x t h

  report_error-KeepsRunning : (r : Result SystemError (Unit {0})) → KeepsRunning (report_error os r)
  report_error-KeepsRunning (ok _) t h = h
  report_error-KeepsRunning (err x) t h = eprint_error-KeepsRunning x t h

  report_size-KeepsRunning : (r : Result SystemError ℕ) → KeepsRunning (report_size os r)
  report_size-KeepsRunning (ok size) t h = dmesg-KeepsRunning _ t h
  report_size-KeepsRunning (err x) t h = eprint_error-KeepsRunning x t h

  report_exit-KeepsRunning : (r : Result String String) → KeepsRunning (report_exit os r)
  report_exit-KeepsRunning (ok status) t h = dmesg-KeepsRunning _ t h
  report_exit-KeepsRunning (err x) t h = Runs-snoc t _ h (λ e. cc)

  create_if-KeepsRunning : (b : Bool) (target : String) → KeepsRunning (create_if os b target)
  create_if-KeepsRunning false target t h = h
  create_if-KeepsRunning true target t h =
      report_text-KeepsRunning _ _ _ (Runs-snoc t _ h (λ e. cc))

  after-KeepsRunning :
      (r : Result SystemError (Unit {0})) (next : M (Result SystemError (Unit {0})))
      → KeepsRunning next
      → KeepsRunning (after os r next)
  after-KeepsRunning (ok _) next w t h = w t h
  after-KeepsRunning (err x) next w t h = h

  mount-KeepsRunning :
      (src target fstype : String) (flags : List MountFlag) (options : String)
      → KeepsRunning (mount os src target fstype flags options)
  unfolding mount
  mount-KeepsRunning src target fstype flags options = after-KeepsRunning (cstring "src" src) _ (
      after-KeepsRunning (cstring "fstype" fstype) _ (
        after-KeepsRunning (cstring "data" options) _
          (after-KeepsRunning (cstring "target" target) _ (λ t h. Runs-snoc t _ h (λ e. cc)))))

  freopen-KeepsRunning :
      (filename mode : String) (file : ℕ) → KeepsRunning (freopen os filename mode file)
  unfolding freopen
  freopen-KeepsRunning filename mode file =
      after-KeepsRunning (cstring "filename" filename) _
        (after-KeepsRunning (cstring "mode" mode) _ (λ t h. Runs-snoc t _ h (λ e. cc)))

  mount_all-KeepsRunning : (ps : List MountPoint) → KeepsRunning (mount_all os ps)
  unfolding mount_all
  mount_all-KeepsRunning [] t h = h
  mount_all-KeepsRunning (p ∷ ps) t h = mount_all-KeepsRunning ps _ (
      report-KeepsRunning _ _ _ (
        mount-KeepsRunning p.src p.target p.fstype p.flags p.options _
          (create_if-KeepsRunning _ _ _ (Runs-snoc t _ h (λ e. cc)))))

  reopen-KeepsRunning : (mode : String) (file : ℕ) → KeepsRunning (reopen os mode file)
  reopen-KeepsRunning mode file t h =
      report_error-KeepsRunning _ _ (freopen-KeepsRunning _ mode file t h)

  insmod-KeepsRunning : (path : String) → KeepsRunning (insmod os path)
  unfolding insmod
  insmod-KeepsRunning path t h = elim (Result-cases (os.open_file t path)) [
    | inl (_, q) ↦ rw (insmod, q) (Runs-snoc _ _ (Runs-snoc t _ h (λ e. cc)) (λ e. cc))
    | inr (x, q) ↦ rw (insmod, q) (Runs-snoc t _ h (λ e. cc))
  ]

  socket_connect-KeepsRunning :
      (family port cid : ℕ) → KeepsRunning (socket_connect os family port cid)
  unfolding socket_connect
  socket_connect-KeepsRunning family port cid t h =
      Runs-snoc _ _ (Runs-snoc t _ h (λ e. cc)) (λ e. cc)

  send_heartbeat-KeepsRunning : (r : Result SystemError ℤ) → KeepsRunning (send_heartbeat os r)
  send_heartbeat-KeepsRunning (err x) t h = eprint_error-KeepsRunning x t h
  send_heartbeat-KeepsRunning (ok fd) t h =
      dmesg-KeepsRunning _ _
        (Runs-snoc _ _ (Runs-snoc _ _ (Runs-snoc t _ h (λ e. cc)) (λ e. cc)) (λ e. cc))

  nitro_heartbeat-KeepsRunning : KeepsRunning (nitro_heartbeat os)
  unfolding nitro_heartbeat
  nitro_heartbeat-KeepsRunning t h =
      send_heartbeat-KeepsRunning _ _ (socket_connect-KeepsRunning _ _ _ t h)

  report_module-KeepsRunning :
      (r : Result SystemError (Unit {0})) → KeepsRunning (report_module os r)
  report_module-KeepsRunning (ok _) t h = dmesg-KeepsRunning _ t h
  report_module-KeepsRunning (err x) t h = eprint_error-KeepsRunning x t h

  init_platform-KeepsRunning : KeepsRunning (init_platform os)
  unfolding init_platform
  init_platform-KeepsRunning t h =
      report_module-KeepsRunning _ _
        (insmod-KeepsRunning "/nsm.ko" _ (nitro_heartbeat-KeepsRunning t h))

  collect_entropy-KeepsRunning :
      (fuel : ℕ) (fd : ℤ) (size : ℕ) (dest : Bytes)
      → KeepsRunning (collect_entropy os fuel fd size dest)
  unfolding collect_entropy
  collect_entropy-KeepsRunning zero fd size dest t h = h
  collect_entropy-KeepsRunning (suc fuel) fd size dest t h =
      elim (Bool-cases (ltb (length dest) size)) [
        | inr full ↦ rw (collect_entropy, full) h
        | inl more ↦
            let h' = Runs-snoc t (Kernel.nsm_get_random fd 256) h (λ e. cc) in
            elim (Option-cases (os.nsm_get_random t fd)) [
              | inl q ↦ rw (collect_entropy, more, q) h'
              | inr (front, q) ↦
                  rw (collect_entropy, more, q)
                    (collect_entropy-KeepsRunning fuel fd size (dest ++ buffer front) _ h')
            ]
      ]

  entropy_from-KeepsRunning :
      (size : ℕ) (fd : ℤ) (refused : Bool) → KeepsRunning (entropy_from os size fd refused)
  entropy_from-KeepsRunning size fd true t h = h
  entropy_from-KeepsRunning size fd false t h = collect_entropy-KeepsRunning size fd size [] t h

  get_entropy-KeepsRunning : (size : ℕ) → KeepsRunning (get_entropy os size)
  unfolding get_entropy
  get_entropy-KeepsRunning size t h =
      entropy_from-KeepsRunning size _ _ _ (Runs-snoc t Kernel.nsm_lib_init h (λ e. cc))

  write_sample-KeepsRunning :
      (sample : Bytes) (r : Result String (Unit {0})) → KeepsRunning (write_sample os sample r)
  write_sample-KeepsRunning sample (err x) t h = h
  write_sample-KeepsRunning sample (ok _) t h = Runs-snoc t _ h (λ e. cc)

  seed_sample-KeepsRunning : (r : Result SystemError Bytes) → KeepsRunning (seed_sample os r)
  seed_sample-KeepsRunning (err x) t h = h
  seed_sample-KeepsRunning (ok sample) t h =
      write_sample-KeepsRunning sample _ _ (Runs-snoc t (Kernel.open_file urandom) h (λ e. cc))

  seed_entropy-KeepsRunning :
      (size : ℕ) (source : ℕ → M (Result SystemError Bytes))
      → KeepsRunning (source size)
      → KeepsRunning (seed_entropy os size source)
  unfolding seed_entropy
  seed_entropy-KeepsRunning size source w t h = seed_sample-KeepsRunning _ _ (w t h)

  boot-KeepsRunning : KeepsRunning (boot os)
  unfolding boot init_rootfs init_console
  boot-KeepsRunning t h = report_size-KeepsRunning _ _ (
      seed_entropy-KeepsRunning 4096 (get_entropy os) (get_entropy-KeepsRunning 4096) _ (
        init_platform-KeepsRunning _ (
          reopen-KeepsRunning "w" 2 _ (
            reopen-KeepsRunning "w" 1 _
              (reopen-KeepsRunning "r" 0 _ (mount_all-KeepsRunning mount_points t h))))))

  run_child-KeepsRunning : (r : Result String (Unit {0})) → KeepsRunning (run_child os r)
  run_child-KeepsRunning (err x) t h = Runs-snoc t _ h (λ e. cc)
  run_child-KeepsRunning (ok _) t h =
      report_exit-KeepsRunning _ _
        (Runs-snoc _ _ (dmesg-KeepsRunning "Spawned run.sh script" t h) (λ e. cc))

  -- Whatever the system answers, the first process runs to its end and reboots there, once: the last call is a reboot, and no call
  -- before it is one.
  pub main-reboots : (t : Trace) × ((main os []).0 ≡ t ++ Kernel.reboot ∷ []) × Runs t
  unfolding main reboot
  main-reboots = (
    _,
    refl,
    run_child-KeepsRunning _ _ (
        Runs-snoc _ _
          (Runs-snoc _ _
            (Runs-snoc _ _
              (dmesg-KeepsRunning "EnclaveOS Booted" _
                (boot-KeepsRunning [] (record { calls = tt })))
              (λ e. cc))
            (λ e. cc))
          (λ e. cc)),
  )
