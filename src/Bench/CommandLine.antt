-- ===== src/Bench/CommandLine.antt =====
-- The command line of the benchmark client.
use Prim.Native.String.{String}
use text.Mathlib.Text.{◌==◌ as str_eq, starts_with}
use text.Mathlib.TextEquality.{eq_iff}
use lloogg.Prelude.{
  ℕ, ◌≡◌, refl, sym, ap, ◌∙◌, inl, inr, none, some, List, [], ◌∷◌, ◌++◌, Option, true, false, All,
  Bool-cases, append_assoc, append-nil,
}
use lloogg.Bench.{Cfg, flag_of, other_arg, parse_loop, parse_args, default_cfg}

-- What a user can write on the command line: an option with the text of its number, the address, or an
-- option that the client does not know, which is reported and has no value.
pub data Setting : Type 0 where
  threads count warmup uid pipeline : (text : String) (n : ℕ) → Setting
  address unknown : (text : String) → Setting

abbrev pub words : Setting → List String
words (threads text n) = "--threads" ∷ text ∷ []
words (count text n) = "--count" ∷ text ∷ []
words (warmup text n) = "--warmup" ∷ text ∷ []
words (uid text n) = "--uid" ∷ text ∷ []
words (pipeline text n) = "--pipeline" ∷ text ∷ []
words (address text) = text ∷ []
words (unknown text) = text ∷ []

abbrev pub command_line : List Setting → List String
command_line [] = []
command_line (s ∷ ss) = words s ++ command_line ss

abbrev pub with_setting : Cfg → Setting → Cfg
with_setting cfg (threads text n) = record cfg { threads = n }
with_setting cfg (count text n) = record cfg { count = n }
with_setting cfg (warmup text n) = record cfg { warmup = n }
with_setting cfg (uid text n) = record cfg { uid = n }
with_setting cfg (pipeline text n) = record cfg { pipeline = n }
with_setting cfg (address text) = record cfg { addr = text }
with_setting cfg (unknown text) = cfg

-- One setting after the other, so that the last one of a kind counts.
abbrev pub with_settings : Cfg → List Setting → Cfg
with_settings cfg [] = cfg
with_settings cfg (s ∷ ss) = with_settings (with_setting cfg s) ss

-- The text of a number is that number to the parser, an address does not begin with two dashes, and an
-- unknown option does, and is none of the five.
abbrev pub IsWellFormed : (String → String → Option ℕ) → Setting → Type 0
IsWellFormed parse (threads text n) = parse "--threads" text ≡ some n
IsWellFormed parse (count text n) = parse "--count" text ≡ some n
IsWellFormed parse (warmup text n) = parse "--warmup" text ≡ some n
IsWellFormed parse (uid text n) = parse "--uid" text ≡ some n
IsWellFormed parse (pipeline text n) = parse "--pipeline" text ≡ some n
IsWellFormed parse (address text) = starts_with text "--" ≡ false
IsWellFormed parse (unknown text) =
    (starts_with text "--" ≡ true)
    × (str_eq text "--threads" ≡ false)
    × (str_eq text "--count" ≡ false)
    × (str_eq text "--warmup" ≡ false)
    × (str_eq text "--uid" ≡ false)
    × (str_eq text "--pipeline" ≡ false)

-- A text that does not begin with two dashes is another than one that does.
not_flag :
    (text flag : String)
    → starts_with text "--" ≡ false
    → starts_with flag "--" ≡ true
    → str_eq text flag ≡ false
not_flag text flag no_dash dash = elim (Bool-cases (str_eq text flag)) [
  | inl same ↦
      let begins : starts_with text "--" ≡ true =
        ap (λ t. starts_with t "--") ((eq_iff text flag).0 same) ∙ dash in
      absurd (cc)
  | inr other ↦ other
]

flag_of_address : (text : String) → starts_with text "--" ≡ false → flag_of text ≡ none
unfolding flag_of
flag_of_address text h =
    rw
      (
        flag_of,
        not_flag text "--threads" h refl,
        not_flag text "--count" h refl,
        not_flag text "--warmup" h refl,
        not_flag text "--uid" h refl,
        not_flag text "--pipeline" h refl,
      )
      refl

module _ (parse : String → String → Option ℕ) where
  -- An argument that is no flag is looked at alone, whatever follows it.
  parse_loop-other :
      (text : String) (args : List String) (cfg : Cfg)
      → flag_of text ≡ none
      → parse_loop parse (text ∷ args) cfg ≡ parse_loop parse args (other_arg cfg text)
  unfolding parse_loop
  parse_loop-other text [] cfg no_flag = rw (parse_loop, no_flag)
  parse_loop-other text (arg ∷ args) cfg no_flag = rw (parse_loop, no_flag)

  parse_loop-words :
      (s : Setting) (args : List String) (cfg : Cfg)
      → IsWellFormed parse s
      → parse_loop parse (words s ++ args) cfg ≡ parse_loop parse args (with_setting cfg s)
  unfolding parse_loop flag_of other_arg
  parse_loop-words (threads text n) args cfg i = rw (parse_loop, i)
  parse_loop-words (count text n) args cfg i = rw (parse_loop, i)
  parse_loop-words (warmup text n) args cfg i = rw (parse_loop, i)
  parse_loop-words (uid text n) args cfg i = rw (parse_loop, i)
  parse_loop-words (pipeline text n) args cfg i = rw (parse_loop, i)
  parse_loop-words (address text) args cfg i =
      parse_loop-other text args cfg (flag_of_address text i)
      ∙ ap (parse_loop parse args) (rw (other_arg, i))
  parse_loop-words (unknown text) args cfg (dash, t, c, w, u, p) =
      parse_loop-other text args cfg (rw (flag_of, t, c, w, u, p))
      ∙ ap (parse_loop parse args) (rw (other_arg, dash))

  parse_loop-command_line :
      (ss : List Setting) (args : List String) (cfg : Cfg)
      → All (IsWellFormed parse) ss
      → parse_loop parse (command_line ss ++ args) cfg
        ≡ parse_loop parse args (with_settings cfg ss)
  parse_loop-command_line [] args cfg i = refl
  parse_loop-command_line (s ∷ ss) args cfg i =
      ap (λ t. parse_loop parse t cfg) (append_assoc (words s) (command_line ss) args)
      ∙ parse_loop-words s (command_line ss ++ args) cfg i.0
      ∙ parse_loop-command_line ss args (with_setting cfg s) i.1

  -- A command line is read as it is meant: its settings, in whatever order, wherever the address stands
  -- and however often an option is given, are written over the defaults one after the other, so that the
  -- last one of a kind counts and an unknown option changes nothing; but with an option at the end that
  -- lacks its value the client panics. The text of a number is that number to the parser, an address does
  -- not begin with two dashes, and an unknown option does, and is none of the five.
  pub parse_args-command_line :
      (ss : List Setting)
      → All (IsWellFormed parse) ss
      → (parse_args parse (command_line ss) ≡ some (with_settings default_cfg ss))
        × (parse_args parse (command_line ss ++ "--threads" ∷ []) ≡ none)
        × (parse_args parse (command_line ss ++ "--count" ∷ []) ≡ none)
        × (parse_args parse (command_line ss ++ "--warmup" ∷ []) ≡ none)
        × (parse_args parse (command_line ss ++ "--uid" ∷ []) ≡ none)
        × (parse_args parse (command_line ss ++ "--pipeline" ∷ []) ≡ none)
  unfolding parse_args parse_loop flag_of
  parse_args-command_line ss i = (
    ap (λ t. parse_loop parse t default_cfg) (sym (append-nil (command_line ss)))
        ∙ parse_loop-command_line ss [] default_cfg i,
    parse_loop-command_line ss ("--threads" ∷ []) default_cfg i,
    parse_loop-command_line ss ("--count" ∷ []) default_cfg i,
    parse_loop-command_line ss ("--warmup" ∷ []) default_cfg i,
    parse_loop-command_line ss ("--uid" ∷ []) default_cfg i,
    parse_loop-command_line ss ("--pipeline" ∷ []) default_cfg i,
  )
