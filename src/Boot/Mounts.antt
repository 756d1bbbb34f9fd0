-- ===== src/Boot/Mounts.antt =====
-- Which calls mount the file systems (src/init/init.rs).
use nautilus_messaging_relay.Common.{
  true, false, Bool, String, List, [], ◌∷◌, ◌++◌, All, filter, if◌then◌else◌, Result, ok, err, ◌≡◌,
  refl, sym, ap, ◌∙◌, arith,
}
use mathlib.Core.List.{append_assoc, append-nil}
use native.Mathlib.Decide.{ℕ_discrete}
use nautilus_messaging_relay.Common.Text.{as_bytes, ◌+s◌}
use nautilus_messaging_relay.Boot.Kernel
use nautilus_messaging_relay.Boot.Kernel.{
  Os, Event, Trace, M, MountFlag, printed, printed_error, ◌>>=◌, ask,
}
use nautilus_messaging_relay.Boot.System.{SystemError, dmesg, eprint_error, mount, cstring}
use nautilus_messaging_relay.Boot.Init.{
  MountPoint, report_text, report, create_if, or_false, mount_all, mount_points, init_rootfs,
}

-- Everything but what is printed.
abbrev pub is_call : Event → Bool
is_call (printed line) = false
is_call (printed_error line) = false
is_call e = true

abbrev pub calls_of : Trace → Trace
calls_of = filter is_call

filter-append :
    {A : Type 0} (p : A → Bool) (xs ys : List A) → filter p (xs ++ ys) ≡ filter p xs ++ filter p ys
filter-append p [] ys = refl
filter-append p (x ∷ xs) ys = ground (arith, filter-append p xs ys)

-- The calls for a mount point: whether it exists, its creation if it does, and the mount.
abbrev pub calls_for : (String → Bool) → MountPoint → Trace
calls_for present p =
    Kernel.exists p.target ∷ (if present p.target then Kernel.create_dir_all p.target ∷ [] else [])
    ++ Kernel.mount p.src p.target p.fstype p.flags p.options ∷ []

abbrev pub all_calls : (String → Bool) → List MountPoint → Trace
all_calls present [] = []
all_calls present (p ∷ ps) = calls_for present p ++ all_calls present ps

-- The texts of a mount point hold no zero byte.
abbrev pub IsClean : MountPoint → Type 0
IsClean p =
    (cstring "src" p.src ≡ ok tt)
    × (cstring "fstype" p.fstype ≡ ok tt)
    × (cstring "data" p.options ≡ ok tt)
    × (cstring "target" p.target ≡ ok tt)

mount_points-IsClean : All IsClean mount_points
unfolding cstring as_bytes ℕ_discrete
mount_points-IsClean = (
  (refl, refl, refl, refl),
  (
    (refl, refl, refl, refl),
    (
      (refl, refl, refl, refl),
      (
        (refl, refl, refl, refl),
        (
          (refl, refl, refl, refl),
          ((refl, refl, refl, refl), ((refl, refl, refl, refl), ((refl, refl, refl, refl), tt))),
        ),
      ),
    ),
  ),
)

module _ (os : Os) where
  report-quiet :
      (r : Result SystemError (Unit {0})) (line : String) (t : Trace)
      → calls_of (report os r line t).0 ≡ calls_of t
  unfolding dmesg eprint_error
  report-quiet (ok _) line t = filter-append is_call t _ ∙ append-nil (calls_of t)
  report-quiet (err x) line t = filter-append is_call t _ ∙ append-nil (calls_of t)

  report_text-quiet :
      (r : Result String (Unit {0})) (line : String) (t : Trace)
      → calls_of (report_text os r line t).0 ≡ calls_of t
  unfolding dmesg
  report_text-quiet (ok _) line t = filter-append is_call t _ ∙ append-nil (calls_of t)
  report_text-quiet (err x) line t = filter-append is_call t _ ∙ append-nil (calls_of t)

  create_if-calls :
      (b : Bool) (target : String) (t : Trace)
      → calls_of (create_if os b target t).0
        ≡ calls_of t ++ (if b then Kernel.create_dir_all target ∷ [] else [])
  create_if-calls false target t = sym (append-nil (calls_of t))
  create_if-calls true target t =
      let t' = t ++ Kernel.create_dir_all target ∷ [] in
      report_text-quiet (os.create_dir_all t target) ("Created mount point " +s target) t'
      ∙ filter-append is_call t (Kernel.create_dir_all target ∷ [])

  mount-calls :
      (p : MountPoint) (t : Trace)
      → IsClean p
      → calls_of (mount os p.src p.target p.fstype p.flags p.options t).0
        ≡ calls_of t ++ Kernel.mount p.src p.target p.fstype p.flags p.options ∷ []
  unfolding mount
  mount-calls p t (a, b, c, d) = rw (mount, a, b, c, d) (filter-append is_call t _)

  module _ (present : String → Bool)
      (exists : (t : Trace) (path : String) → os.exists t path ≡ ok (present path)) where
    mount_all-calls :
        (ps : List MountPoint) (t : Trace)
        → All IsClean ps
        → calls_of (mount_all os ps t).0 ≡ calls_of t ++ all_calls present ps
    unfolding mount_all
    mount_all-calls [] t c = sym (append-nil (calls_of t))
    mount_all-calls (p ∷ ps) t (c, cs) =
        let t1 = t ++ Kernel.exists p.target ∷ [] in
        let t2 = (create_if os (or_false (os.exists t p.target)) p.target t1).0 in
        let (t3, r) = mount os p.src p.target p.fstype p.flags p.options t2 in
        let made : calls_of t2
            ≡ calls_of t1
              ++ (if present p.target then Kernel.create_dir_all p.target ∷ [] else []) =
          create_if-calls (or_false (os.exists t p.target)) p.target t1
          ∙ ap
              (λ x. calls_of t1 ++ (if or_false x then Kernel.create_dir_all p.target ∷ [] else []))
              (exists t p.target) in
        mount_all-calls ps (report os r ("Mounted " +s p.target) t3).0 cs
        ∙ ap (λ x. x ++ all_calls present ps)
            (report-quiet r ("Mounted " +s p.target) t3
              ∙ mount-calls p t2 c
              ∙ ap (λ x. x ++ Kernel.mount p.src p.target p.fstype p.flags p.options ∷ [])
                  (made
                    ∙ ap
                        (λ x.
                          x
                          ++ (if present p.target then Kernel.create_dir_all p.target ∷ [] else []))
                        (filter-append is_call t _)))
        ∙ simp append_assoc

    -- Where the file system answers which paths exist, whatever else fails, the calls that set up the
    -- root file system are, for each of the eight mount points in their order: whether it exists, its
    -- creation exactly if it exists, and its mount.
    pub init_rootfs-calls :
        (t : Trace) → calls_of (init_rootfs os t).0 ≡ calls_of t ++ all_calls present mount_points
    unfolding init_rootfs
    init_rootfs-calls t = mount_all-calls mount_points t mount_points-IsClean
