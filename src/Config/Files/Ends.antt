-- ===== src/Config/Files/Ends.antt =====
-- The nesting of configuration files ends, and leaves no trace.
use jaim.Prelude.{
  ℕ, zero, suc, ltb, ◌<◌, Bool, true, false, not, ◌&&◌, List, [], ◌∷◌, length, Option, none, some,
  Result, ok, err, ◌≡◌, ◌≢◌, inl, inr, refl, ap, ◌∙◌, arith, Bool-cases, Text,
}
use jaim.Prelude.Stateful.{feed}
use jaim.Fs.Maps.{has_path, set_emplace, set_erase}
use jaim.Fs.Maps.Sets.{set_erase-set_emplace, free, free-less, free-length}
use jaim.Config.Files.{
  ConfigAct, Fault, out_of_fuel, ConfigOption, conf, conf_optional, other, Opened, opened, unnamed,
  absent, failed, ConfigFiles, ConfigState, with_conf, parse_opened, parse_config_file, apply,
  must_exist, run_option, run_options, run_file, cleared, parse_config_fd,
}
use jaim.Fs.Paths.{components}

err_same :
    {A B : Type 0} (e : Fault)
    → ◌≡◌ {A = Result Fault B} (err e) (err out_of_fuel)
    → ◌≡◌ {A = Result Fault A} (err e) (err out_of_fuel)
err_same e h = cc

module _ {S : Type 0} (files : ConfigFiles S) (all : List Text)
    (known : (b : Bool) (file ld : Text)
      → files.open_file b file ≡ opened ld
      → has_path ld all ≡ true) where
  -- Code that ends, and leaves the set of open files and the flag as they were.
  abbrev pub IsFine : {A : Type 0} → ConfigState S → Result Fault A × ConfigState S → Type 0
  IsFine c r =
      (r.0 ≢ err out_of_fuel) × (r.1.loop_detect ≡ c.loop_detect) × (r.1.parsing ≡ c.parsing)

  feed-IsFine :
      {A B : Type 0} (c : ConfigState S) (r : Result Fault A × ConfigState S)
      (f : A → ConfigAct files B)
      → IsFine c r
      → ((a : A) (d : ConfigState S)
          → d.loop_detect ≡ c.loop_detect
          → d.parsing ≡ c.parsing
          → IsFine c (f a d))
      → IsFine c (feed r f)
  feed-IsFine c (ok a, d) f h k = k a d h.1 h.2
  feed-IsFine c (err e, d) f h k = ((λ same. h.0 (err_same e same)), h.1, h.2)

  module _ (parse : Text → ConfigAct files (Unit {0})) (loop : List Text)
      (fine : (ld : Text) (c : ConfigState S)
        → has_path ld all ≡ true
        → c.loop_detect ≡ loop
        → IsFine c (parse ld c)) where
    parse_opened-IsFine :
        (file : Text) (o : Opened) (c : ConfigState S)
        → ((ld : Text) → o ≡ opened ld → has_path ld all ≡ true)
        → c.loop_detect ≡ loop
        → IsFine c (parse_opened files parse file o c)
    parse_opened-IsFine file (opened ld) c h same =
        feed-IsFine c (parse ld c) _ (fine ld c (h ld refl) same) (λ u d l p. ((λ e. cc), l, p))
    parse_opened-IsFine file unnamed c h same = ((λ e. cc), refl, refl)
    parse_opened-IsFine file absent c h same = ((λ e. cc), refl, refl)
    parse_opened-IsFine file (failed e) c h same = ((λ e. cc), refl, refl)

    parse_config_file-IsFine :
        (file : Text) (c : ConfigState S)
        → c.loop_detect ≡ loop
        → IsFine c (parse_config_file files parse file c)
    unfolding parse_config_file
    parse_config_file-IsFine file c same =
        parse_opened-IsFine (with_conf files file) _ c
          (known (ltb 1 (components file) && not c.parsing) (with_conf files file)) same

    must_exist-IsFine :
        (file : Text) (b : Bool) (c d : ConfigState S)
        → d.loop_detect ≡ c.loop_detect
        → d.parsing ≡ c.parsing
        → IsFine c (must_exist files file b d)
    must_exist-IsFine file true c d l p = ((λ e. cc), l, p)
    must_exist-IsFine file false c d l p = ((λ e. cc), l, p)

    apply-IsFine : (c : ConfigState S) (r : Result Text S) → IsFine c (apply files c r)
    apply-IsFine c (ok s) = ((λ e. cc), refl, refl)
    apply-IsFine c (err e) = ((λ e. cc), refl, refl)

    run_option-IsFine :
        (o : ConfigOption S) (c : ConfigState S)
        → c.loop_detect ≡ loop
        → IsFine c (run_option files parse o c)
    unfolding run_option
    run_option-IsFine (conf arg) c same =
        feed-IsFine c _ _ (parse_config_file-IsFine (files.expand c.settings arg) c same)
          (λ b d l p. must_exist-IsFine _ b c d l p)
    run_option-IsFine (conf_optional arg) c same =
        feed-IsFine c _ _ (parse_config_file-IsFine (files.expand c.settings arg) c same)
          (λ b d l p. ((λ e. cc), l, p))
    run_option-IsFine (other f) c same = apply-IsFine c (f c.settings)

    run_options-IsFine :
        (os : List (ConfigOption S)) (c : ConfigState S)
        → c.loop_detect ≡ loop
        → IsFine c (run_options files parse os c)
    unfolding run_options
    run_options-IsFine [] c same = ((λ e. cc), refl, refl)
    run_options-IsFine (o ∷ os) c same = feed-IsFine c _ _ (run_option-IsFine o c same) (λ u d l p.
        let rest = run_options-IsFine os d (l ∙ same) in (rest.0, rest.1 ∙ l, rest.2 ∙ p))

    run_file-IsFine :
        (ld : Text) (o : Option (List (ConfigOption S))) (c : ConfigState S)
        → c.loop_detect ≡ loop
        → IsFine c (run_file files parse ld o c)
    run_file-IsFine ld none c same = ((λ e. cc), refl, refl)
    run_file-IsFine ld (some os) c same = run_options-IsFine os c same

  cleared-IsFine :
      (ld : Text) (c : ConfigState S) (r : Result Fault (Unit {0}) × ConfigState S)
      → has_path ld c.loop_detect ≡ false
      → IsFine (record c { loop_detect = set_emplace ld c.loop_detect; parsing = true }) r
      → IsFine c (cleared files ld c.parsing r)
  cleared-IsFine ld c (r, d) new h =
      (h.0, ap (set_erase ld) h.1 ∙ set_erase-set_emplace ld c.loop_detect new, refl)

  parse_config_fd-IsFine :
      (fuel : ℕ) (ld : Text) (c : ConfigState S)
      → free all c.loop_detect < fuel
      → has_path ld all ≡ true
      → IsFine c (parse_config_fd files fuel ld c)
  unfolding parse_config_fd
  parse_config_fd-IsFine zero ld c enough inside = absurd (omega arith)
  parse_config_fd-IsFine (suc fuel) ld c enough inside =
      elim (Bool-cases (has_path ld c.loop_detect)) [
        | inl again ↦ rw again ((λ e. cc), refl, refl)
        | inr new ↦
            let less = free-less ld all c.loop_detect inside new in
            let inner : ConfigState S = record c {
              loop_detect = set_emplace ld c.loop_detect;
              parsing = true;
            } in
            let parse = parse_config_fd files fuel in
            rw new (
              cleared-IsFine ld c (run_file files parse ld (files.options ld) inner) new (
                run_file-IsFine parse (set_emplace ld c.loop_detect)
                  (λ next d known same.
                    parse_config_fd-IsFine fuel next d (rw same (omega arith)) known)
                  ld (files.options ld) inner refl))
      ]

  -- Whatever the configuration files name, and however often, the nested parsing of one of them
  -- ends: a fuel beyond the number of files suffices. It leaves the set of the files that are being
  -- read and the flag `parsing_config_file_` as they were, also where it throws.
  pub parse_config_fd-ends :
      (fuel : ℕ) (ld : Text) (c : ConfigState S)
      → length all < fuel
      → has_path ld all ≡ true
      → IsFine c (parse_config_fd files fuel ld c)
  parse_config_fd-ends fuel ld c enough inside =
      parse_config_fd-IsFine fuel ld c (omega (arith, free-length all c.loop_detect)) inside
