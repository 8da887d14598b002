-- ===== src/LogMacros.antt =====
-- common/include/log.h: the log macros of host builds. The formatted message is an argument, and
-- the result is what `AER_LOG_PRINTF` prints.
use aer_handshake_firmware.Base.{ℕ, ◌≡◌, refl, List, [], ◌∷◌, ◌++◌, if◌then◌else◌, leb}

-- `AER_LOGE`, `AER_LOGW`, `AER_LOGI` and `AER_LOGD`.
pub data Macro : Type 0 where
  error warn info debug : Macro

-- `AER_LOG_LEVEL`
abbrev pub log_level : ℕ
log_level = 3

-- `AER_LOG_TAG`, "AER".
abbrev pub log_tag : List ℕ
log_tag = 65 ∷ 69 ∷ 82 ∷ []

-- The level from which on a macro prints.
abbrev pub least_level : Macro → ℕ
least_level error = 1
least_level warn = 2
least_level info = 3
least_level debug = 4

-- The letters E, W, I and D.
abbrev pub letter : Macro → ℕ
letter error = 69
letter warn = 87
letter info = 73
letter debug = 68

-- "[E] %s: ", the message and the end of the line; nothing where the level is too low.
pub macro_text : Macro → List ℕ → List ℕ
macro_text m message =
    if leb (least_level m) log_level
    then 91 ∷ letter m ∷ 93 ∷ 32 ∷ (log_tag ++ (58 ∷ 32 ∷ (message ++ 10 ∷ [])))
    else []

-- "[W] AER: x" and an end of line; debug lines are left out.
macro_text_warn :
    macro_text warn (120 ∷ []) ≡ 91 ∷ 87 ∷ 93 ∷ 32 ∷ 65 ∷ 69 ∷ 82 ∷ 58 ∷ 32 ∷ 120 ∷ 10 ∷ []
unfolding macro_text
macro_text_warn = refl

macro_text_debug : (message : List ℕ) → macro_text debug message ≡ []
unfolding macro_text
macro_text_debug message = refl
