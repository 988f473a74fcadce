-- ===== src/Capability/Laws.antt =====
-- BBgrid_Server/runtime/capability.go: what is executed after any calls.
use bbgrid.Prelude.{
  ◌≡◌, refl, ◌∙◌, Option, none, some, List, [], ◌∷◌, Text, text_key, ◌==◌, if◌then◌else◌, ap,
}
use bbgrid.GoMap.{get, get-put, get-delete}
use bbgrid.Capability.{
  Capability, ActionContext, CapabilityEntry, CapabilityRegistry, register, unregister,
  register_proxy_provider, register_relay_provider, execute, execute_found,
}

-- The calls that change the registry.
pub data Operation (R P Q : Type 0) : Type 0 where
  registers : Capability → (ActionContext → R) → Operation R P Q
  unregisters : Text → Operation R P Q
  provides_proxies : Text → P → Operation R P Q
  provides_relays : Text → Q → Operation R P Q

module _ {R P Q : Type 0} where
  abbrev pub operate : CapabilityRegistry R P Q → Operation R P Q → CapabilityRegistry R P Q
  operate r (registers c h) = register r c h
  operate r (unregisters name) = unregister r name
  operate r (provides_proxies name p) = register_proxy_provider r name p
  operate r (provides_relays name p) = register_relay_provider r name p

  abbrev pub operate_all :
      CapabilityRegistry R P Q → List (Operation R P Q) → CapabilityRegistry R P Q
  operate_all r [] = r
  operate_all r (o ∷ os) = operate_all (operate r o) os

  -- The last word of the calls on a name, where there is one, over what held before.
  abbrev pub last_word :
      Text → Option (CapabilityEntry R) → List (Operation R P Q) → Option (CapabilityEntry R)
  last_word name before [] = before
  last_word name before (registers c h ∷ os) =
      last_word name
        (if c.name == name then some (record { capability = c; handler = h }) else before) os
  last_word name before (unregisters n ∷ os) =
      last_word name (if n == name then none else before) os
  last_word name before (provides_proxies n p ∷ os) = last_word name before os
  last_word name before (provides_relays n p ∷ os) = last_word name before os

  get-operate_all :
      (r : CapabilityRegistry R P Q) (os : List (Operation R P Q)) (name : Text)
      → get (operate_all r os).entries name ≡ last_word name (get r.entries name) os
  get-operate_all r [] name = refl
  get-operate_all r (registers c h ∷ os) name =
      get-operate_all (register r c h) os name
      ∙ ap (λ o. last_word name o os) (get-put r.entries c.name name _)
  get-operate_all r (unregisters n ∷ os) name =
      get-operate_all (unregister r n) os name
      ∙ ap (λ o. last_word name o os) (get-delete r.entries n name)
  get-operate_all r (provides_proxies n p ∷ os) name =
      get-operate_all (register_proxy_provider r n p) os name
  get-operate_all r (provides_relays n p ∷ os) name =
      get-operate_all (register_relay_provider r n p) os name

  -- After any calls an action is executed by the handler that was registered last under its name and not
  -- unregistered since, and refused with 404 where there is none.
  execute-operate_all :
      (r : CapabilityRegistry R P Q) (os : List (Operation R P Q)) (x : ActionContext)
      → execute (operate_all r os) x
        ≡ execute_found x (last_word x.action (get r.entries x.action) os)
  unfolding execute
  execute-operate_all r os x = ap (λ o. execute_found x o) (get-operate_all r os x.action)
