-- ===== src/App/Args.antt =====
-- src/main.cpp: the command line. `std::atoi` is a parameter; what is printed is not modelled.
use Prim.Native.String.{String}
use text.Mathlib.Text
use lockfree_matching_engine.Prelude.{
  ℕ, ◌%◌, ◌^◌, ◌-◌, ◌<◌, ◌≡◌, refl, Bool, true, false, ◌||◌, List, [], ◌∷◌, if◌then◌else◌, ℤ, pos,
  negsuc, arith,
}

pub record Config : Type 0 where
  pub live : Bool
  pub product : String
  pub duration_s : ℕ
  pub log_path : String
  pub dash_port : ℕ

abbrev pub default_config : Config
default_config = record {
  live = true;
  product = "BTC-USD";
  duration_s = 0;
  log_path = "trades.bin";
  dash_port = 0;
}

-- The configuration, or the status of `std::exit`.
pub data Parsed : Type 0 where
  parsed : Config → Parsed
  exits : ℕ → Parsed

-- An `int` as a word of `w` bits.
abbrev pub to_word : ℕ → ℤ → ℕ
to_word w (pos n) = n % 2 ^ w
to_word w (negsuc n) = 2 ^ w - 1 - n % 2 ^ w

abbrev pub is_option : String → String → String → Bool
is_option long short arg = Text.◌==◌ arg long || Text.◌==◌ arg short

module _ (atoi : String → ℤ) where
  -- The options with no value, for an argument that takes none or that has no argument behind it.
  unfoldable pub parse_flag : String → (Config → Parsed) → Config → Parsed
  parse_flag arg rest cfg =
      if is_option "--live" "-l" arg
      then rest (record cfg { live = true })
      else if is_option "--synthetic" "-s" arg
      then rest (record cfg { live = false })
      else if Text.◌==◌ arg "--no-log"
      then rest (record cfg { log_path = "" })
      else if Text.◌==◌ arg "--dashboard"
      then rest (record cfg { dash_port = 9100 })
      else if is_option "--help" "-h" arg
      then exits 0
      else exits 1

  -- The options with a value, if there is an argument behind the option; the loop goes on behind it.
  unfoldable pub parse_value :
      String → String → (Config → Parsed) → (Config → Parsed) → Config → Parsed
  parse_value arg value behind rest cfg =
      if Text.◌==◌ arg "--product"
      then behind (record cfg { product = value })
      else if Text.◌==◌ arg "--duration"
      then behind (record cfg { duration_s = to_word 32 (atoi value) })
      else if Text.◌==◌ arg "--log"
      then behind (record cfg { log_path = value })
      else if Text.◌==◌ arg "--dashboard-port"
      then behind (record cfg { dash_port = to_word 16 (atoi value) })
      else parse_flag arg rest cfg

  -- The loop, on the arguments behind the program's name.
  unfoldable pub parse_args : List String → Config → Parsed
  unfolding parse_value parse_flag
  parse_args [] cfg = parsed cfg
  parse_args (arg ∷ []) cfg = parse_flag arg (λ c. parsed c) cfg
  parse_args (arg ∷ value ∷ args) cfg =
      parse_value arg value (parse_args args) (parse_args (value ∷ args)) cfg

-- The arguments that ask for a configuration, with `print` for its numbers.
abbrev pub args_of : (ℕ → String) → Config → List String
args_of print cfg =
    (if cfg.live then "--live" else "--synthetic")
    ∷ "--product"
    ∷ cfg.product
    ∷ "--duration"
    ∷ print cfg.duration_s
    ∷ "--log"
    ∷ cfg.log_path
    ∷ "--dashboard-port"
    ∷ print cfg.dash_port
    ∷ []

-- For a configuration with a duration below 2^32 and a port below 2^16, which `atoi` reads back
-- from their texts: the arguments that ask for the configuration are parsed to it, whatever the
-- configuration before.
pub parse_args-args_of :
    (atoi : String → ℤ) (print : ℕ → String) (cfg start : Config)
    → atoi (print cfg.duration_s) ≡ pos cfg.duration_s
    → atoi (print cfg.dash_port) ≡ pos cfg.dash_port
    → cfg.duration_s < 2 ^ 32
    → cfg.dash_port < 2 ^ 16
    → parse_args atoi (args_of print cfg) start ≡ parsed cfg
unfolding parse_args
parse_args-args_of atoi print cfg start d p small_d small_p = by_mode cfg.live refl
  where
    by_mode :
        (b : Bool)
        → b ≡ cfg.live
        → parse_args atoi
            ((if b then "--live" else "--synthetic")
              ∷ "--product"
              ∷ cfg.product
              ∷ "--duration"
              ∷ print cfg.duration_s
              ∷ "--log"
              ∷ cfg.log_path
              ∷ "--dashboard-port"
              ∷ print cfg.dash_port
              ∷ [])
            start
          ≡ parsed cfg
    by_mode true e = rw (d, p) (ground arith)
    by_mode false e = rw (d, p) (ground arith)
