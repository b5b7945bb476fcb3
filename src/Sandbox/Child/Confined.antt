-- ===== src/Sandbox/Child/Confined.antt =====
-- How the sandboxed program is confined, by the child of `Config::exec` of jaim.cc.
use jaim.Prelude.{
  ℕ, ◌==◌, ◌<◌, ltb, true, not, ◌&&◌, ◌||◌, if◌then◌else◌, List, [], ◌∷◌, map, is_empty, some,
  Result, ok, err, Text, ◌≡◌, refl, sym, ap, subst, arith, Bool-cases, inl, inr,
}
use jaim.Prelude.Stateful.{feed}
use jaim.Credentials.{Credentials, enter_permanently}
use jaim.Credentials.Door.{enter_permanently-IsEntered, IsEntered, dropped}
use jaim.Config.Environment.{make_env}
use jaim.Sandbox.Profile.{Mode, casual, bare, strict}
use jaim.Sandbox.Child.System.{Process, Image, Child, ChildSystem, without, has}
use jaim.Sandbox.Child.{
  Plan, Fault, Fate, runs, exits, file_of, argv_of, drop_in, close_high, close_loop, scrub,
  set_script, confine, replace, child, made_image, sought_image, settle, settle_ids, modify,
  or_exit,
}

-- All the ids of the process, and its groups, are the user's.
abbrev pub IsDropped : Mode → Credentials → Process → Type 0
IsDropped strict user p = p ≡ dropped user
IsDropped bare user p = Unit {0}
IsDropped casual user p = Unit {0}

abbrev pub IsScrubbed : List ℕ → Type 0
IsScrubbed fds = (fd : ℕ) → has fd fds ≡ true → fd < 3

pub record IsConfined (p : Plan) (c : Child) : Type 0 where
  pub dropped : IsDropped p.mode p.user c.ids
  pub sandboxed : c.sandbox ≡ some p.profile
  pub scrubbed : IsScrubbed c.fds
  pub placed : c.cwd ≡ p.cwd
  pub masked : c.umask ≡ p.old_umask

-- The program that runs, and its environment: what make_env passes on, unless `execvp` has found
-- the program.
abbrev pub IsPlanned : Plan → Image → Child → Type 0
IsPlanned p i c =
    (i.file ≡ file_of p)
    × (i.arguments ≡ argv_of p)
    × (i.environment
        ≡ (if i.searched then c.environ else map (λ v. v.1) (make_env p.environment c.environ)))

abbrev pub IsSafe : Plan → Fate → Type 0
IsSafe p (runs i c) = IsConfined p c × IsPlanned p i c
IsSafe p (exits code) = code ≡ 1

has-without : (fd gone : ℕ) (l : List ℕ) → has fd (without gone l) ≡ (has fd l && not (fd == gone))
has-without fd gone [] = refl
has-without fd gone (x ∷ l) = ground (arith, has-without fd gone l)

module _ (sys : ChildSystem) where
  -- `proc_pidinfo` succeeds, and all the open descriptors are among those that it gives.
  abbrev pub IsListed : Child → Type 0
  IsListed c =
      (ltb 0 (sys.fd_bytes c) ≡ true)
      × ((fd : ℕ) → has fd c.fds ≡ true → has fd (sys.list_fds (sys.fd_bytes c) c) ≡ true)

  left_by : ℕ → List ℕ → List ℕ
  left_by x fds = if ltb x 3 then fds else without x fds

  close_high_lem : (x : ℕ) (c : Child) → close_high sys x c ≡ record c { fds = left_by x c.fds }
  unfolding close_high left_by
  close_high_lem x c = elim (Bool-cases (ltb x 3)) [
    | inl low ↦ rw low refl
    | inr high ↦ rw (high, sys.close_lem x c) refl
  ]

  has-left_by :
      (fd x : ℕ) (fds : List ℕ)
      → has fd (left_by x fds) ≡ (has fd fds && (ltb x 3 || not (fd == x)))
  unfolding left_by
  has-left_by fd x fds = ground (arith, has-without fd x fds)

  close_loop-fields :
      (l : List ℕ) (c : Child) → close_loop sys l c ≡ record c { fds = (close_loop sys l c).fds }
  unfolding close_loop
  close_loop-fields [] c = refl
  close_loop-fields (x ∷ l) c =
      subst (λ d. close_loop sys l d ≡ record c { fds = (close_loop sys l d).fds })
        (sym (close_high_lem x c)) (close_loop-fields l (record c { fds = left_by x c.fds }))

  close_loop-fds :
      (l : List ℕ) (c : Child) (fd : ℕ)
      → has fd (close_loop sys l c).fds ≡ (has fd c.fds && (ltb fd 3 || not (has fd l)))
  unfolding close_loop
  close_loop-fds [] c fd = ground (arith)
  close_loop-fds (x ∷ l) c fd =
      subst
        (λ d.
          has fd (close_loop sys l d).fds ≡ (has fd c.fds && (ltb fd 3 || not (has fd (x ∷ l)))))
        (sym (close_high_lem x c))
        (ground
          (arith, close_loop-fds l (record c { fds = left_by x c.fds }) fd, has-left_by fd x c.fds))

  scrub-fields : (c : Child) → scrub sys c ≡ record c { fds = (scrub sys c).fds }
  unfolding scrub
  scrub-fields c = elim (Bool-cases (ltb 0 (sys.fd_bytes c))) [
    | inl listed ↦ rw listed (close_loop-fields (sys.list_fds (sys.fd_bytes c) c) c)
    | inr failed ↦ rw failed refl
  ]

  scrub-IsScrubbed : (c : Child) → IsListed c → IsScrubbed (scrub sys c).fds
  unfolding scrub
  scrub-IsScrubbed c h fd left =
      ground (arith, close_loop-fds (sys.list_fds (sys.fd_bytes c) c) c fd, h.1 fd)

  abbrev IsGood : Plan → Result Fault (Unit {0}) × Child → Type 0
  IsGood p (ok u, c) = IsConfined p c
  IsGood p (err e, c) = Unit {0}

  -- The last two calls.
  placed-IsGood :
      (p : Plan) (c : Child) (r : Result ℕ Child)
      → ((d : Child) → r ≡ ok d → d ≡ record c { cwd = p.cwd })
      → IsDropped p.mode p.user c.ids
      → c.sandbox ≡ some p.profile
      → IsScrubbed c.fds
      → IsGood p
          (feed (settle sys Fault.no_directory c r) (λ u. modify sys (sys.set_umask p.old_umask)))
  placed-IsGood p c (err e) law d s f = tt
  placed-IsGood p c (ok e) law d s f =
      rw (sys.set_umask_lem p.old_umask e, law e refl)
        (record { dropped = d; sandboxed = s; scrubbed = f; placed = refl; masked = refl })

  set_script-fields :
      (path : Text) (c : Child)
      → set_script sys path c ≡ record c { environ = (set_script sys path c).environ }
  unfolding set_script
  set_script-fields path c = elim (Bool-cases (is_empty path)) [
    | inl unset ↦ rw unset refl
    | inr set ↦ rw set refl
  ]

  -- From the descriptors on.
  abbrev rest : Plan → Child → Result Fault (Unit {0}) × Child
  rest p c =
      feed (settle sys Fault.no_directory c (sys.chdir p.cwd c))
        (λ u. modify sys (sys.set_umask p.old_umask))

  rest-IsGood :
      (p : Plan) (c : Child)
      → IsDropped p.mode p.user c.ids
      → c.sandbox ≡ some p.profile
      → IsScrubbed c.fds
      → IsGood p (rest p c)
  rest-IsGood p c d s f = placed-IsGood p c (sys.chdir p.cwd c) (sys.chdir_lem p.cwd c) d s f

  scripted-IsGood :
      (p : Plan) (c : Child)
      → IsDropped p.mode p.user c.ids
      → c.sandbox ≡ some p.profile
      → IsListed c
      → IsGood p (rest p (set_script sys p.script_path (scrub sys c)))
  scripted-IsGood p c d s h =
      let scrubbed = scrub sys c in
      subst (λ e. IsGood p (rest p e)) (sym (set_script-fields p.script_path scrubbed))
        (rest-IsGood p
          (record scrubbed { environ = (set_script sys p.script_path scrubbed).environ })
          (subst (λ (e : Child). IsDropped p.mode p.user e.ids) (sym (scrub-fields c)) d)
          (subst (λ (e : Child). e.sandbox ≡ some p.profile) (sym (scrub-fields c)) s)
          (scrub-IsScrubbed c h))

  module _ (listed : (c : Child) → IsListed c) where
    -- From `sandbox_init` on.
    sandboxed-IsGood :
        (p : Plan) (c : Child) (r : Result Text Child)
        → ((d : Child) → r ≡ ok d → d ≡ record c { sandbox = some p.profile })
        → IsDropped p.mode p.user c.ids
        → IsGood p (
            feed
              (settle sys Fault.no_sandbox c r)
              (λ u d. rest p (set_script sys p.script_path (scrub sys d))))
    sandboxed-IsGood p c (err e) law d = tt
    sandboxed-IsGood p c (ok e) law d =
        scripted-IsGood p e
          (subst (λ (e : Child). IsDropped p.mode p.user e.ids) (sym (law e refl)) d)
          (ap (λ (e : Child). e.sandbox) (law e refl)) (listed e)

    -- What follows the change of the ids.
    abbrev behind : Plan → Child → Result Fault (Unit {0}) × Child
    behind p c =
        feed (settle sys Fault.no_sandbox c (sys.sandbox_init p.profile c))
          (λ u d. rest p (set_script sys p.script_path (scrub sys d)))

    behind-IsGood : (p : Plan) (c : Child) → IsDropped p.mode p.user c.ids → IsGood p (behind p c)
    behind-IsGood p c d =
        sandboxed-IsGood p c (sys.sandbox_init p.profile c) (sys.sandbox_init_lem p.profile c) d

    entered-IsGood :
        (p : Plan) (c : Child) (r : Result jaim.Credentials.Fault (Unit {0}) × Process)
        → p.mode ≡ strict
        → IsEntered sys.kernel p.user c.ids r
        → IsGood p (feed (settle_ids sys c r) (λ u. behind p))
    entered-IsGood p c (err e, q) strict_mode h = tt
    entered-IsGood p c (ok u, q) strict_mode h =
        behind-IsGood p (record c { ids = q }) (rw strict_mode h.2)

    dropped-IsGood :
        (p : Plan) (c : Child) (m : Mode)
        → p.mode ≡ m
        → IsGood p (feed (drop_in sys m p.user c) (λ u. behind p))
    dropped-IsGood p c casual e = behind-IsGood p c (rw e tt)
    dropped-IsGood p c bare e = behind-IsGood p c (rw e tt)
    dropped-IsGood p c strict e =
        entered-IsGood p c (enter_permanently sys.kernel p.user c.ids) e
          (enter_permanently-IsEntered sys.kernel p.user c.ids)

    confine-IsGood : (p : Plan) (c : Child) → IsGood p (confine sys p c)
    unfolding confine
    confine-IsGood p c = dropped-IsGood p c p.mode refl

    replace-IsSafe : (p : Plan) (c : Child) → IsConfined p c → IsSafe p (replace sys p c)
    unfolding replace made_image sought_image
    replace-IsSafe p c h = elim (Bool-cases (sys.execve (made_image p c) c)) [
      | inl run ↦ rw run (h, (refl, refl, refl))
      | inr not_run ↦ elim (Bool-cases (sys.execvp (sought_image p c) c)) [
        | inl run ↦ rw (not_run, run) (h, (refl, refl, refl))
        | inr gone ↦ rw (not_run, gone) refl
      ]
    ]

    or_exit-IsSafe :
        (p : Plan) (r : Result Fault (Unit {0}) × Child) → IsGood p r → IsSafe p (or_exit sys p r)
    or_exit-IsSafe p (ok u, c) h = replace-IsSafe p c h
    or_exit-IsSafe p (err e, c) h = refl

    -- The sandboxed program never runs unconfined: whatever call fails, the child either ends with
    -- code 1, or becomes the planned program under the profile, with no descriptor above stderr, in
    -- the jail's directory, with the old mask, and in strict mode with all its ids the sandbox
    -- user's; the program gets the environment of make_env, unless only execvp has found it, which
    -- passes jaim's own on. All open descriptors must be among those that proc_pidinfo gives.
    pub child-IsSafe : (p : Plan) (c : Child) → IsSafe p (child sys p c)
    unfolding child
    child-IsSafe p c = or_exit-IsSafe p (confine sys p c) (confine-IsGood p c)
