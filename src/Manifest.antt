-- ===== src/Manifest.antt =====
-- The types of sdk/src/manifest.ts, which every part of the program reads. A union of string
-- literals that the code only compares with keys of saved objects is a text.
use open_agent_hub.Prelude.{String, List, Option}

pub data ModelProvider : Type 0 where
  openai anthropic google deepseek ollama mistral xai groq local custom : ModelProvider

pub data RuntimeLanguage : Type 0 where
  python node go rust other : RuntimeLanguage

-- "filesystem", "network", "github", "terminal", "browser", "camera", "microphone" or "none"
abbrev pub Permission : Type 0
Permission = String

pub data SandboxRequest : Type 0 where
  auto container isolated_process : SandboxRequest

pub record RuntimeSpec : Type 0 where
  pub language : RuntimeLanguage
  pub python : Option String
  pub node : Option String
  pub sandbox : Option SandboxRequest

-- The fields that no code reads (input and output formats, transport, tools, methods) are left out.
pub record AgentInterfaces : Type 0 where
  pub cli_command : Option String
  pub mcp_entrypoint : Option String
  pub http_endpoint : Option String

pub record Dependencies : Type 0 where
  pub pip : Option (List String)
  pub npm : Option (List String)
  pub system : Option (List String)

-- `manifestVersion` is always 1.
pub record Manifest : Type 0 where
  pub name : String
  pub version : String
  pub author : String
  pub license : String
  pub runtime : RuntimeSpec
  pub models_supported : List ModelProvider
  pub interfaces : AgentInterfaces
  pub permissions : Option (List Permission)
  pub dependencies : Option Dependencies
  pub secrets : Option (List String)
