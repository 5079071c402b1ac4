-- ===== src/Logging.antt =====
-- internal/util/logging.go: the logger's level and format from their names.
use kong_portal_controller.Base.{
  quoted, String, ◌<>◌, ◌≡◌, refl, ap, ◌∙◌, ◌↔◌, inl, inr, none, some, List, [], ◌∷◌, arith,
  message, Result, ok, err, ◌>>=◌, context, Result-cases, ◌==◌, string_eq, nat_eq, string_dec,
  if◌then◌else◌,
}
use kong_portal_controller.Annotations.{lookup}

-- The levels and the formatters of logrus.
pub data Level : Type 0 where
  panic_level fatal_level error_level warn_level info_level debug_level trace_level : Level

pub data Formatter : Type 0 where
  text_formatter json_formatter : Formatter

pub record Logger : Type 0 where
  pub level : Level
  pub formatter : Formatter

-- `logrusLevels`
abbrev pub logrus_levels : List (String × Level)
logrus_levels =
    ("panic", panic_level)
    ∷ ("fatal", fatal_level)
    ∷ ("error", error_level)
    ∷ ("warn", warn_level)
    ∷ ("info", info_level)
    ∷ ("debug", debug_level)
    ∷ ("trace", trace_level)
    ∷ []

unfoldable pub get_logrus_level : String → Result Level
unfolding lookup
get_logrus_level level = elim (lookup level logrus_levels) [
  | none ↦ err (message (quoted level <> " is not a valid log level"))
  | some res ↦ ok res
]

unfoldable pub get_logrus_formatter : String → Result Formatter
get_logrus_formatter typ =
    if typ == "text"
    then ok text_formatter
    else if typ == "json"
    then ok json_formatter
    else err (message (quoted typ <> " is not a valid log formatter"))

unfoldable pub make_logger : String → String → Result Logger
make_logger level formatter = do
  log_level ← context "setting log level failed" (get_logrus_level level)
  log_formatter ← context "setting log formatter failed" (get_logrus_formatter formatter)
  ok (record { level = log_level; formatter = log_formatter })

-- The name of each level and format, as the flags' help lists them.
abbrev pub level_name : Level → String
level_name panic_level = "panic"
level_name fatal_level = "fatal"
level_name error_level = "error"
level_name warn_level = "warn"
level_name info_level = "info"
level_name debug_level = "debug"
level_name trace_level = "trace"

abbrev pub formatter_name : Formatter → String
formatter_name text_formatter = "text"
formatter_name json_formatter = "json"

level-name : (level : String) (l : Level) → get_logrus_level level ≡ ok l → level ≡ level_name l
unfolding get_logrus_level
level-name level l h = ground arith

name-level : (l : Level) → get_logrus_level (level_name l) ≡ ok l
unfolding get_logrus_level string_dec
name-level panic_level = refl
name-level fatal_level = refl
name-level error_level = refl
name-level warn_level = refl
name-level info_level = refl
name-level debug_level = refl
name-level trace_level = refl

formatter-name :
    (typ : String) (f : Formatter) → get_logrus_formatter typ ≡ ok f → typ ≡ formatter_name f
unfolding get_logrus_formatter
formatter-name typ f h = ground arith

name-formatter : (f : Formatter) → get_logrus_formatter (formatter_name f) ≡ ok f
unfolding get_logrus_formatter string_dec
name-formatter text_formatter = refl
name-formatter json_formatter = refl

-- A logger is made exactly from the names of its level and its formatter.
pub make_logger_iff :
    (level formatter : String) (log : Logger)
    → (make_logger level formatter ≡ ok log)
      ↔ ((level ≡ level_name log.level) × (formatter ≡ formatter_name log.formatter))
unfolding make_logger
make_logger_iff level formatter log = (
  λ h. elim (Result-cases (get_logrus_level level)) [
    | inl (l, e) ↦ elim (Result-cases (get_logrus_formatter formatter)) [
      | inl (f, e') ↦
          let named : level ≡ level_name l = level-name level l e in
          let called : formatter ≡ formatter_name f = formatter-name formatter f e' in
          let same : record { level = l; formatter = f } ≡ log = ground arith in
          (
            named ∙ ap (λ (g : Logger). level_name g.level) same,
            called ∙ ap (λ (g : Logger). formatter_name g.formatter) same,
          )
      | inr (bad, e') ↦ absurd (ground arith)
    ]
    | inr (bad, e) ↦ absurd (ground arith)
  ],
  λ (named, called).
      rw (named, called) (ground (arith, name-level log.level, name-formatter log.formatter)),
)
