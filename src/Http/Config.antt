-- ===== src/Http/Config.antt =====
-- http/configuration.cc: handlers by name, URL rules and virtual hosts. A handler is a value that its
-- factory makes; a regular expression of the xpressive library is a Boolean test of the path.
pub mod Rules
pub mod Hosts
pub mod Handlers
use tube.Common.{
  Bytes, codes, bytes_eq, Bool, true, false, List, [], ◌∷◌, ◌++◌, Option, none, some, ltb, ◌==◌,
  not, if◌then◌else◌, length, take, drop,
}

-- What a rule may look at and change of a request.
pub record Request : Type 0 where
  pub path : Bytes
  pub uri : Bytes

pub data Matcher : Type 0 where
  prefix : Bytes → Matcher
  regex : (Bytes → Bool) → Matcher
  always : Matcher

-- The find of a std::map whose entries were put in by insert or by operator[].
abbrev pub lookup : {T : Type 0} → Bytes → List (Bytes × T) → Option T
lookup key [] = none
lookup key ((k, v) ∷ l) = if bytes_eq k key then some v else lookup key l

-- PrefixUrlRuleItemMatcher::match. Erasing more than there is of the uri is undefined in the source;
-- here it leaves none.
pub match_prefix : Bytes → Request → Bool × Request
match_prefix p req =
    if ltb (length req.path) (length p)
    then (false, req)
    else if not (bytes_eq (take (length p) req.path) p)
    then (false, req)
    else (true, record { path = drop (length p) req.path; uri = drop (length p) req.uri })

-- A rule without a matcher, of an unknown type, takes every request.
pub match : Matcher → Request → Bool × Request
match (prefix p) req = match_prefix p req
match (regex test) req = (test req.path, req)
match always req = (true, req)

pub record Rule (H : Type 0) : Type 0 where
  pub matcher : Matcher
  pub handlers : List H

module _ {H : Type 0} where
  -- UrlRuleConfig::match_uri: a matcher that refuses may still hand on a request.
  pub match_rules : List (Rule H) → Request → Option (Rule H) × Request
  match_rules [] req = (none, req)
  match_rules (r ∷ rs) req =
      let m = match r.matcher req in
      let rest = match_rules rs m.1 in if m.0 then (some r, m.1) else rest

  -- The part of load_url_rule that looks up the chain: a name without a handler is left out.
  pub chain : List (Bytes × H) → List Bytes → List H
  chain handlers [] = []
  chain handlers (name ∷ names) = elim (lookup name handlers) [
    | some h ↦ h ∷ chain handlers names
    | none ↦ chain handlers names
  ]

-- str.find(':') and substr from there; `none` for npos.
pub from_colon : Bytes → Option Bytes
from_colon [] = none
from_colon (c ∷ s) = let rest = from_colon s in if c == b':' then some (c ∷ s) else rest

pub host_key : Bytes → Option Bytes → Bytes
host_key host none = host
host_key host (some s) = s

pub parse_host : Bytes → Bytes
parse_host host = host_key host (from_colon host)

module _ {H : Type 0} where
  -- VHostConfig::match_uri; `none` where neither the host nor "default" is there, and the source
  -- reads behind end().
  pub find_host : List (Bytes × List (Rule H)) → Option (List (Rule H)) → Option (List (Rule H))
  find_host hosts none = lookup (codes "default") hosts
  find_host hosts (some rules) = some rules

  pub match_found : Option (List (Rule H)) → Request → Option (Option (Rule H) × Request)
  match_found none req = none
  match_found (some rules) req = some (match_rules rules req)

  pub match_uri :
      List (Bytes × List (Rule H)) → Bytes → Request → Option (Option (Rule H) × Request)
  match_uri hosts host req = match_found (find_host hosts (lookup (parse_host host) hosts)) req

-- HandlerConfig: the handlers by name and the factories by module.
pub record HandlerConfig (H F : Type 0) : Type 0 where
  pub handlers : List (Bytes × H)
  pub factories : List (Bytes × F)

module _ {H F : Type 0} (create : F → Bytes → H) where
  -- A handler is created with the name that set_name gives it.
  pub create_found : Bytes → HandlerConfig H F → Option F → Option H × HandlerConfig H F
  create_found name cfg none = (none, cfg)
  create_found name cfg (some factory) = (
    some (create factory name),
    record cfg { handlers = (name, create factory name) ∷ cfg.handlers },
  )

  pub create_unless : Bytes → Bytes → HandlerConfig H F → Option H → Option H × HandlerConfig H F
  create_unless name module_name cfg (some handler) = (some handler, cfg)
  create_unless name module_name cfg none = create_found name cfg (lookup module_name cfg.factories)

  pub create_handler_instance : Bytes → Bytes → HandlerConfig H F → Option H × HandlerConfig H F
  create_handler_instance name module_name cfg =
      create_unless name module_name cfg (lookup name cfg.handlers)

  -- factories_[name] = factory
  pub register_handler_factory : Bytes → F → HandlerConfig H F → HandlerConfig H F
  register_handler_factory module_name factory cfg = record cfg {
    factories = (module_name, factory) ∷ cfg.factories;
  }

  pub get_handler_instance : Bytes → HandlerConfig H F → Option H
  get_handler_instance name cfg = lookup name cfg.handlers
