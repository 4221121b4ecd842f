-- ===== src/Broker/Options/Own.antt =====
-- What a configuration of broker/server.py says of each option: the client's last setting of it, or
-- the default.
use chessy_mcp.Prelude.{
  String, ◌≡◌, refl, ◌∙◌, false, Option, none, some, [], ◌∷◌, arith, Assoc, assign, lookup, latest,
  HasUniqueKeys, lookup-assign, is_some, eq_iff,
}
use chessy_mcp.Broker.Search.{merge, settings, default_options}
use chessy_mcp.Broker.Options.{hear_all}

-- an engine that has heard settings shows the last one of each option
lookup-hear_all :
    (name : String) (o es : Assoc String)
    → lookup name (hear_all (settings o) es) ≡ latest name o (lookup name es)
unfolding hear_all settings
lookup-hear_all name [] es = refl
lookup-hear_all name ((other, value) ∷ o) es =
    lookup-hear_all name o (assign other value es) ∙ rw (lookup-assign other name value es) refl

pub lookup-merge :
    (name : String) (defaults own : Assoc String)
    → lookup name (merge defaults own) ≡ latest name own (lookup name defaults)
unfolding merge
lookup-merge name defaults [] = refl
lookup-merge name defaults ((other, value) ∷ own) =
    lookup-merge name (assign other value defaults) own
    ∙ rw (lookup-assign other name value defaults) refl

HasUniqueKeys-assign :
    (name value : String) (entries : Assoc String)
    → HasUniqueKeys entries
    → HasUniqueKeys (assign name value entries)
unfolding assign lookup
HasUniqueKeys-assign name value [] h = (refl, tt)
HasUniqueKeys-assign name value ((other, w) ∷ entries) h = ground (
  arith,
  h,
  HasUniqueKeys-assign name value entries,
  lookup-assign name other value entries,
  eq_iff other name,
  eq_iff name other,
)

HasUniqueKeys-merge :
    (defaults own : Assoc String) → HasUniqueKeys defaults → HasUniqueKeys (merge defaults own)
unfolding merge
HasUniqueKeys-merge defaults [] h = h
HasUniqueKeys-merge defaults ((name, value) ∷ own) h =
    HasUniqueKeys-merge (assign name value defaults) own
      (HasUniqueKeys-assign name value defaults h)

latest-absent :
    (name : String) (entries : Assoc String) (before : Option String)
    → is_some (lookup name entries) ≡ false
    → latest name entries before ≡ before
unfolding lookup
latest-absent name [] before h = refl
latest-absent name ((other, v) ∷ entries) before h =
    ground (arith, h, latest-absent name entries before, eq_iff other name)

latest-lookup :
    (name : String) (entries : Assoc String)
    → HasUniqueKeys entries
    → latest name entries none ≡ lookup name entries
unfolding lookup
latest-lookup name [] h = refl
latest-lookup name ((other, v) ∷ entries) h =
    ground
      (arith, h, latest-absent name entries (some v), latest-lookup name entries, eq_iff other name)

defaults-HasUniqueKeys : (threads hash : String) → HasUniqueKeys (default_options threads hash)
unfolding lookup
defaults-HasUniqueKeys threads hash = ground arith

-- an engine that hears a configuration shows the client's last setting of an option, or its default
pub lookup-configuration :
    (threads hash name : String) (own : Assoc String)
    → lookup name (hear_all (settings (merge (default_options threads hash) own)) [])
      ≡ latest name own (lookup name (default_options threads hash))
unfolding lookup
lookup-configuration threads hash name own =
    lookup-hear_all name (merge (default_options threads hash) own) []
    ∙ latest-lookup name (merge (default_options threads hash) own) (
        HasUniqueKeys-merge (default_options threads hash) own
          (defaults-HasUniqueKeys threads hash))
    ∙ lookup-merge name (default_options threads hash) own
