-- ===== src/Capability.antt =====
-- BBgrid_Server/runtime/capability.go with the types of types.go: the registry of capabilities. What a
-- handler returns, and what it does besides, is a type `R` of the embedding program, and so are the
-- providers `P` of proxies and `Q` of relays.
pub mod Laws
use bbgrid.Prelude.{Bool, Option, none, some, List, [], ◌∷◌, ◌++◌, Text, ℤ, pos, text_key, is_some}
use bbgrid.GoText.{codes}
use bbgrid.GoMap.{GoMap, get, put, delete, values}
use bbgrid.Types.{Any}

pub record ParamSchema : Type 0 where
  pub name : Text
  pub type : Text
  pub required : Bool
  pub default_value : Text
  pub description : Text

pub record ActionSchema : Type 0 where
  pub name : Text
  pub description : Text
  pub params : List ParamSchema

pub record Capability : Type 0 where
  pub name : Text
  pub description : Text
  pub source : Text
  pub schema : ActionSchema

pub record ActionContext : Type 0 where
  pub action : Text
  pub params : GoMap Text Any
  pub headers : GoMap Text Text

-- The code and the message of the registry's own `ActionResult`, or what a handler returned.
pub data Executed (R : Type 0) : Type 0 where
  refused : ℤ → Text → Executed R
  returned : R → Executed R

pub record CapabilityEntry (R : Type 0) : Type 0 where
  pub capability : Capability
  pub handler : ActionContext → R

pub record CapabilityRegistry (R P Q : Type 0) : Type 0 where
  pub entries : GoMap Text (CapabilityEntry R)
  pub proxy_providers : GoMap Text P
  pub relay_providers : GoMap Text Q

module _ {R : Type 0} where
  abbrev pub capabilities : List (CapabilityEntry R) → List Capability
  capabilities [] = []
  capabilities (e ∷ es) = e.capability ∷ capabilities es

  abbrev pub execute_found : ActionContext → Option (CapabilityEntry R) → Executed R
  execute_found x none = refused (pos 404) (codes "action not found: " ++ x.action)
  execute_found x (some e) = returned (e.handler x)

module _ {R P Q : Type 0} where
  abbrev pub new_capability_registry : CapabilityRegistry R P Q
  new_capability_registry = record { entries = []; proxy_providers = []; relay_providers = [] }

  -- `Register` and `Unregister`
  abbrev pub register :
      CapabilityRegistry R P Q → Capability → (ActionContext → R) → CapabilityRegistry R P Q
  register r c h = record r {
    entries = put r.entries c.name (record { capability = c; handler = h });
  }

  abbrev pub unregister : CapabilityRegistry R P Q → Text → CapabilityRegistry R P Q
  unregister r name = record r { entries = delete r.entries name }

  -- `Get`
  abbrev pub get_capability : CapabilityRegistry R P Q → Text → Option (CapabilityEntry R)
  get_capability r name = get r.entries name

  -- `List` and `Has`
  abbrev pub list_capabilities : CapabilityRegistry R P Q → List Capability
  list_capabilities r = capabilities (values r.entries)

  abbrev pub has_capability : CapabilityRegistry R P Q → Text → Bool
  has_capability r name = is_some (get r.entries name)

  -- `Execute`
  unfoldable pub execute : CapabilityRegistry R P Q → ActionContext → Executed R
  execute r x = execute_found x (get r.entries x.action)

  -- The providers of proxies and of relays.
  abbrev pub register_proxy_provider :
      CapabilityRegistry R P Q → Text → P → CapabilityRegistry R P Q
  register_proxy_provider r name p = record r { proxy_providers = put r.proxy_providers name p }

  abbrev pub get_proxy_provider : CapabilityRegistry R P Q → Text → Option P
  get_proxy_provider r name = get r.proxy_providers name

  abbrev pub register_relay_provider :
      CapabilityRegistry R P Q → Text → Q → CapabilityRegistry R P Q
  register_relay_provider r name p = record r { relay_providers = put r.relay_providers name p }

  abbrev pub get_relay_provider : CapabilityRegistry R P Q → Text → Option Q
  get_relay_provider r name = get r.relay_providers name
