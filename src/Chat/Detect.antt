-- ===== src/Chat/Detect.antt =====
-- Which family a template belongs to, and what a Qwen template does about thinking: src/chat.rs.
use reinstinct.Base.{ℕ, Bool, true, false, ◌&&◌, ◌||◌, List, [], ◌∷◌, ◌++◌, take, if◌then◌else◌}
use reinstinct.Base.Utf8.{chars, encode_utf8}
use reinstinct.Base.Text.{codes}
use reinstinct.Serve.Thinking.{starts_with}

-- Thinking on when the request does not say, and whether the template reads `reasoning_effort`.
pub record Qwen3ThinkSpec : Type 0 where
  pub default_on : Bool
  pub reasoning_effort : Bool

pub data ChatTemplateFamily : Type 0 where
  qwen3 gemma4 mistral llama3 deep_seek chat_ml : ChatTemplateFamily
  unknown : List ℕ → ChatTemplateFamily

unfoldable pub label : ChatTemplateFamily → List ℕ
label qwen3 = codes "qwen3"
label gemma4 = codes "gemma4"
label mistral = codes "mistral"
label llama3 = codes "llama3"
label deep_seek = codes "deepseek"
label chat_ml = codes "chatml"
label (unknown prefix) = codes "unknown"

unfoldable pub supported_by_serve : ChatTemplateFamily → Bool
supported_by_serve qwen3 = true
supported_by_serve gemma4 = true
supported_by_serve _ = false

-- `text.contains(pattern)`
unfoldable pub contains : List ℕ → List ℕ → Bool
unfolding starts_with
contains [] pattern = starts_with [] pattern
contains (x ∷ xs) pattern = starts_with (x ∷ xs) pattern || contains xs pattern

-- `chars().take(120).collect()`
unfoldable pub collect : List ℕ → List ℕ
unfolding encode_utf8
collect [] = []
collect (c ∷ cs) = encode_utf8 c ++ collect cs

abbrev im_start : List ℕ
im_start = codes "<|im_start|>"

unfoldable pub qwen_marked : List ℕ → Bool
unfolding contains
qwen_marked jinja =
    contains jinja (codes "image_count")
    || (contains jinja (codes "248045")
        || (contains jinja (codes "Qwen3") || contains jinja (codes "qwen3")))

unfoldable pub detect_chat_template : List ℕ → ChatTemplateFamily
unfolding contains collect chars qwen_marked
detect_chat_template jinja =
    if contains jinja (codes "<|turn>") || contains jinja (codes "<turn|>")
    then gemma4
    else if contains jinja (codes "start_header_id") || contains jinja (codes "eot_id")
    then llama3
    else if contains jinja (codes "[INST]") || contains jinja (codes "[/INST]")
    then mistral
    else if contains jinja (codes "<|begin_of_sentence|>") && contains jinja (codes "Assistant:")
    then deep_seek
    else if contains jinja im_start
    then (if qwen_marked jinja then qwen3 else chat_ml)
    else unknown (collect (take 120 (chars jinja)))

abbrev pub qwen35 : Qwen3ThinkSpec
qwen35 = record { default_on = false; reasoning_effort = false }

unfoldable pub from_template : List ℕ → Qwen3ThinkSpec
unfolding contains
from_template template = record {
  default_on = contains template (codes "enable_thinking is undefined or enable_thinking is true");
  reasoning_effort = contains template (codes "reasoning_effort");
}
