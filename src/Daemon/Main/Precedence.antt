-- ===== src/Daemon/Main/Precedence.antt =====
-- daemon/main.cpp: which value a setting has, of the command line's, the file's and the default.
use chowdy.Base.{
  ℕ, ℤ, ◌≡◌, refl, ap, sym, ◌∙◌, arith, Bool, false, List, [], ◌∷◌, Option, none, some, Str, codes,
  Result, ok, err, ◌==◌, Str-Eq, if◌then◌else◌,
}
use chowdy.Floats.{FloatOps}
use chowdy.Base.Atoi.{atoi}
use chowdy.Logging.{Level}
use chowdy.Config.{AppConfig, Table}
use chowdy.Daemon.Main.Names.{same, name_of, flag_of-foreground, other_flag, other_name, name_same}
use chowdy.Daemon.Main.Sources.{
  field, config_values, last_or, find_config-last_or, IsStart, load-IsStart,
}
use chowdy.Daemon.Main.{
  Settings, seed, TextFlag, Flag, config, text, idle_keep_ms, log_level, foreground, help, unknown,
  flag_of, set_text, Progress, ready, awaits, exits, begin, set_level, give, step, at_end, run_args,
  configured, configure, parse_level,
}

field-set_text :
    (f g : TextFlag) (v : Str) (s : Settings)
    → field f (set_text g v s) ≡ (if same f g then v else field f s)
unfolding set_text
field-set_text f g v s = ground arith

-- The arguments with the values that stand behind them, in the order of the command line; only
-- `--foreground` has none. `waiting` is an argument that has just been read.
pub assignments : Option Str → List Str → List (Str × Str)
assignments waiting [] = []
assignments none (a ∷ args) = assignments (if a == codes "--foreground" then none else some a) args
assignments (some name) (v ∷ args) = (name, v) ∷ assignments none args

-- The last value that the flag gets, or else `value`.
pub last_given : TextFlag → Str → List (Str × Str) → Str
last_given f value [] = value
last_given f value ((name, v) ∷ given) = last_given f (if name == name_of f then v else value) given

abbrev value_so_far : TextFlag → Progress → Str
value_so_far f (ready s) = field f s
value_so_far f (awaits g s) = field f s
value_so_far f (exits code) = []

-- The argument that the loop has just read.
abbrev Agrees : Progress → Option Str → Type 0
Agrees (ready s) none = Unit
Agrees (ready s) (some a) = ⊥
Agrees (awaits g s) none = ⊥
Agrees (awaits g s) (some a) = flag_of a ≡ g
Agrees (exits code) w = Unit

-- The arguments `args` lead from `p` to settings with the last value given.
abbrev Follows : TextFlag → List Str → Progress → Option Str → Type 0
Follows f args p w =
    Agrees p w
    → (s' : Settings) → run_args p args ≡ ready s'
    → field f s' ≡ last_given f (value_so_far f p) (assignments w args)

exits-Follows :
    (f : TextFlag) (args : List Str) (code : ℕ) (s' : Settings)
    → run_args (exits code) args ≡ ready s'
    → ⊥
unfolding run_args step at_end
exits-Follows f [] code s' h = absurd (cc)
exits-Follows f (a ∷ args) code s' h = exits-Follows f args code s' h

ready-injective : (f : TextFlag) (s s' : Settings) → ready s ≡ ready s' → field f s' ≡ field f s
ready-injective f s s' h = sym (ap (value_so_far f) h)

end-Follows : (f : TextFlag) (p : Progress) (w : Option Str) → Follows f [] p w
unfolding run_args at_end last_given assignments
end-Follows f (ready s) w a s' h = ready-injective f s s' h
end-Follows f (awaits config s) w a s' h = ready-injective f s s' h
end-Follows f (awaits (text g) s) w a s' h = absurd (cc)
end-Follows f (awaits idle_keep_ms s) w a s' h = absurd (cc)
end-Follows f (awaits log_level s) w a s' h = absurd (cc)
end-Follows f (awaits foreground s) w a s' h = absurd (cc)
end-Follows f (awaits help s) w a s' h = absurd (cc)
end-Follows f (awaits unknown s) w a s' h = absurd (cc)
end-Follows f (exits code) w a s' h = absurd (cc)

begin-Follows :
    (f : TextFlag) (args : List Str)
    → ((p : Progress) (w : Option Str) → Follows f args p w)
    → (s : Settings) (a : Str) (g : Flag) → flag_of a ≡ g
    → (s' : Settings) → run_args (begin s g) args ≡ ready s'
    → field f s'
      ≡ last_given f
          (field f s)
          (assignments (if a == codes "--foreground" then none else some a) args)
unfolding begin
begin-Follows f args ih s a config e s' h =
    rw (other_flag a config e (λ q. cc q)) (ih (awaits config s) (some a) e s' h)
begin-Follows f args ih s a (text g) e s' h =
    rw (other_flag a (text g) e (λ q. cc q)) (ih (awaits (text g) s) (some a) e s' h)
begin-Follows f args ih s a idle_keep_ms e s' h =
    rw (other_flag a idle_keep_ms e (λ q. cc q)) (ih (awaits idle_keep_ms s) (some a) e s' h)
begin-Follows f args ih s a log_level e s' h =
    rw (other_flag a log_level e (λ q. cc q)) (ih (awaits log_level s) (some a) e s' h)
begin-Follows f args ih s a foreground e s' h =
    rw (flag_of-foreground a e) (ih (ready s) none tt s' h)
begin-Follows f args ih s a help e s' h = absurd (exits-Follows f args 0 s' h)
begin-Follows f args ih s a unknown e s' h = absurd (exits-Follows f args 2 s' h)

field-idle :
    (f : TextFlag) (s : Settings) (n : ℤ)
    → field f (record s { pipeline = record s.pipeline { idle_keep_ms = n } }) ≡ field f s
field-idle f s n = ground arith

field-level :
    (f : TextFlag) (s : Settings) (level : Level)
    → field f (record s { min_level = level }) ≡ field f s
field-level f s level = ground arith

level-Follows :
    (f : TextFlag) (args : List Str)
    → ((p : Progress) (w : Option Str) → Follows f args p w)
    → (s : Settings) (level : Option Level) (s' : Settings)
    → run_args (set_level s level) args ≡ ready s'
    → field f s' ≡ last_given f (field f s) (assignments none args)
unfolding set_level
level-Follows f args ih s none s' h = absurd (exits-Follows f args 2 s' h)
level-Follows f args ih s (some level) s' h =
    ih (ready (record s { min_level = level })) none tt s' h ∙ rw (field-level f s level) refl

give-Follows :
    (f : TextFlag) (args : List Str)
    → ((p : Progress) (w : Option Str) → Follows f args p w)
    → (s : Settings) (g : Flag) (a v : Str) → flag_of a ≡ g
    → (s' : Settings) → run_args (give s g v) args ≡ ready s'
    → field f s' ≡ last_given f (field f s) ((a, v) ∷ assignments none args)
unfolding give last_given
give-Follows f args ih s (text g) a v e s' h =
    ih (ready (set_text g v s)) none tt s' h
    ∙ rw (last_given, name_same a f g e) (rw (field-set_text f g v s) refl)
give-Follows f args ih s config a v e s' h =
    rw (last_given, other_name a f config e (λ q. cc q)) (ih (ready s) none tt s' h)
give-Follows f args ih s idle_keep_ms a v e s' h =
    rw (last_given, other_name a f idle_keep_ms e (λ q. cc q))
      (ih _ none tt s' h ∙ rw (field-idle f s (atoi v)) refl)
give-Follows f args ih s log_level a v e s' h =
    rw (last_given, other_name a f log_level e (λ q. cc q))
      (level-Follows f args ih s (parse_level v) s' h)
give-Follows f args ih s foreground a v e s' h =
    rw (last_given, other_name a f foreground e (λ q. cc q)) (ih (ready s) none tt s' h)
give-Follows f args ih s help a v e s' h =
    rw (last_given, other_name a f help e (λ q. cc q)) (ih (ready s) none tt s' h)
give-Follows f args ih s unknown a v e s' h =
    rw (last_given, other_name a f unknown e (λ q. cc q)) (ih (ready s) none tt s' h)

run_args-Follows :
    (f : TextFlag) (args : List Str) (p : Progress) (w : Option Str) → Follows f args p w
unfolding run_args step assignments
run_args-Follows f [] p w = end-Follows f p w
run_args-Follows f (a ∷ args) (ready s) none =
    λ agrees s' h. begin-Follows f args (run_args-Follows f args) s a (flag_of a) refl s' h
run_args-Follows f (a ∷ args) (ready s) (some b) = λ agrees. absurd agrees
run_args-Follows f (a ∷ args) (awaits g s) none = λ agrees. absurd agrees
run_args-Follows f (a ∷ args) (awaits g s) (some b) =
    λ agrees s' h. give-Follows f args (run_args-Follows f args) s g b a agrees s' h
run_args-Follows f (a ∷ args) (exits code) w =
    λ agrees s' h. absurd (exits-Follows f args code s' h)

configured-Follows :
    (f : TextFlag) (args : List Str) (r : Result AppConfig) (s' : Settings)
    → configured args r ≡ ready s'
    → (c : AppConfig) × (r ≡ ok c)
      × (field f s' ≡ last_given f (field f (seed c)) (assignments none args))
unfolding configured
configured-Follows f args (err what) s' h = absurd (cc)
configured-Follows f args (ok c) s' h =
    (c, refl, run_args-Follows f args (ready (seed c)) none tt s' h)

-- A daemon that starts read the configuration file behind the last `--config` of the command line, or
-- else /etc/chowdy/config.toml, unless there is none; and each of its paths, its device and its camera
-- policy is the last value that stands behind the flag's name on the command line, or else the
-- setting's value in that file, or else the built-in one.
pub configure-last_given :
    (fl : FloatOps) (exists : Str → Bool) (parse_file : Str → Result Table) (args : List Str)
    (f : TextFlag) (s' : Settings)
    → configure fl exists parse_file args ≡ ready s'
    → (start : Str) × IsStart exists parse_file
        (last_or (codes "/etc/chowdy/config.toml") (config_values false args))
        f
        start
      × (field f s' ≡ last_given f start (assignments none args))
unfolding configure
configure-last_given fl exists parse_file args f s' h =
    let fallback = codes "/etc/chowdy/config.toml" in
    let (c, reads, last) = configured-Follows f args _ s' h in
    (
      field f (seed c),
      load-IsStart fl exists parse_file (last_or fallback (config_values false args)) f c
          (rw (sym (find_config-last_or fallback false args)) reads),
      last,
    )
