-- ===== src/Api/Providers.antt =====
-- `clientProviders` of internal/httpapi/client_setup.go: the configuration that a new client is given.
-- The members are in the order of their names, as json.Marshal writes a map.
use opencode_proxy.Base.{List, [], ◌∷◌, String}
use opencode_proxy.Base.Int.{pos}
use opencode_proxy.Text.{Text, codes}
use opencode_proxy.Proxy.Json.{Json, Fields, str, num, obj, field, end}

abbrev pub named_models : List (String × String) → Fields
named_models [] = end
named_models ((id, name) ∷ models) =
    field (codes id) (obj (field (codes "name") (str (codes name)) end)) (named_models models)

abbrev pub openai_models : List (String × String)
openai_models =
    ("deepseek-v4-flash", "DeepSeek V4 Flash")
    ∷ ("deepseek-v4-pro", "DeepSeek V4 Pro")
    ∷ ("glm-5.1", "GLM-5.1")
    ∷ ("glm-5.2", "GLM-5.2")
    ∷ ("grok-4.5", "Grok 4.5")
    ∷ ("kimi-k2.6", "Kimi K2.6")
    ∷ ("kimi-k2.7-code", "Kimi K2.7 Code")
    ∷ ("kimi-k3", "Kimi K3")
    ∷ ("mimo-v2.5", "MiMo-V2.5")
    ∷ ("mimo-v2.5-pro", "MiMo-V2.5-Pro")
    ∷ []

abbrev pub anthropic_models : List (String × String)
anthropic_models =
    ("minimax-m2.5", "MiniMax M2.5")
    ∷ ("minimax-m2.7", "MiniMax M2.7")
    ∷ ("minimax-m3", "MiniMax M3")
    ∷ ("qwen3.6-plus", "Qwen3.6 Plus")
    ∷ ("qwen3.7-max", "Qwen3.7 Max")
    ∷ ("qwen3.7-plus", "Qwen3.7 Plus")
    ∷ []

abbrev pub options : Text → Json
options base_url = obj (
    field (codes "apiKey") (str (codes "{file:~/.config/opencode/opencodeproxy.token}"))
      (field (codes "baseURL") (str base_url) (field (codes "timeout") (num (pos 600000)) end)))

abbrev pub provider : Text → List (String × String) → String → String → Json
provider base_url models name npm = obj (
    field (codes "models") (obj (named_models models)) (
      field (codes "name") (str (codes name))
        (field (codes "npm") (str (codes npm)) (field (codes "options") (options base_url) end))))

unfoldable pub client_providers : Text → Json
client_providers base_url = obj (
    field (codes "opencodeproxy-anthropic")
      (provider base_url anthropic_models "OpencodeProxy (Messages)" "@ai-sdk/anthropic")
      (field (codes "opencodeproxy-openai")
        (provider base_url openai_models "OpencodeProxy" "@ai-sdk/openai-compatible") end))

abbrev pub default_model : Text
default_model = codes "opencodeproxy-openai/mimo-v2.5"
