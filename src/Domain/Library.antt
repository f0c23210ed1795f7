-- ===== src/Domain/Library.antt =====
-- What the program calls of Go's standard library and this development does not define: URL and
-- address parsing and the Unicode case map. They are parameters with no laws assumed.
use open_xai_connect.Base.{String, Bool, Option, Map}

-- The parts of a parsed URL that the program reads. `user` tells whether it holds credentials, and
-- `query` is the parsed query with the first value of each key.
pub record Url : Type 0 where
  pub scheme : String
  pub host : String
  pub hostname : String
  pub user : Bool
  pub path : String
  pub raw_query : String
  pub fragment : String
  pub query : Map String String

pub record Library : Type 0 where
  -- url.Parse; `none` is an error
  pub parse_url : String → Option Url
  -- net.ParseIP(s) != nil
  pub is_ip : String → Bool
  -- strings.ToLower
  pub to_lower : String → String
