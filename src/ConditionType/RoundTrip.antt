-- ===== src/ConditionType/RoundTrip.antt =====
-- `GetGVKNFromConditionType` after `GetConditionType`.
use text.Mathlib.TextLemmas.{append_assoc}
use nephio.Base.{String, ◌<>◌, ◌≡◌, ◌≢◌, refl, ◌∙◌, ap, Option, some, [], ◌∷◌, string_eq, arith}
use nephio.Ref.{ObjectReference}
use nephio.ConditionType.{from_groups, from_parts, get_condition_type, get_gvkn_from_condition_type}
use nephio.ConditionType.Split.{
  split, Avoids, split-Avoids, split-append, Avoids-append, append-ne-nil, separator,
}

-- A text with no slash and no dot.
abbrev pub IsPlain : String → Type 0
IsPlain s = Avoids b'/' s × Avoids b'.' s

abbrev pub dotted : String → String → String → String
dotted version kind name = version <> ("." <> (kind <> ("." <> name)))

split-dotted :
    (version kind name : String)
    → IsPlain version
    → IsPlain kind
    → IsPlain name
    → split b'.' (dotted version kind name) ≡ version ∷ kind ∷ name ∷ []
split-dotted version kind name hv hk hn =
    rw (separator, separator)
      (split-append b'.' version "." (kind <> _) hv.1 refl
        ∙ ap (λ l. version ∷ l)
            (split-append b'.' kind "." name hk.1 refl
              ∙ ap (λ l. kind ∷ l) (split-Avoids b'.' name hn.1)))

Avoids-dotted :
    (version kind name : String)
    → IsPlain version
    → IsPlain kind
    → IsPlain name
    → Avoids b'/' (dotted version kind name)
Avoids-dotted version kind name hv hk hn = Avoids-append b'/' version _ hv.0 (
    Avoids-append b'/' "." _ (refl, tt)
      (Avoids-append b'/' kind _ hk.0 (Avoids-append b'/' "." _ (refl, tt) hn.0)))

slash-ne-nil : (s t : String) → (s <> ("/" <> t)) ≢ ""
slash-ne-nil s t = rw separator (append-ne-nil s "/" t)

dot-ne-nil : (s t : String) → (s <> ("." <> t)) ≢ ""
dot-ne-nil s t = rw separator (append-ne-nil s "." t)

split-group :
    (group rest : String)
    → Avoids b'/' group
    → Avoids b'/' rest
    → split b'/' (group <> ("/" <> rest)) ≡ group ∷ rest ∷ []
split-group group rest hg hr =
    rw separator
      (split-append b'/' group "/" rest hg refl ∙ ap (λ l. group ∷ l) (split-Avoids b'/' rest hr))

get_gvkn-dotted :
    (group version kind name : String)
    → Avoids b'/' group
    → IsPlain version
    → IsPlain kind
    → IsPlain name
    → get_gvkn_from_condition_type (group <> ("/" <> dotted version kind name))
      ≡ record { api_version = group <> "/" <> version; kind = kind; name = name }
unfolding get_gvkn_from_condition_type
get_gvkn-dotted group version kind name hg hv hk hn =
    ap (from_groups (group <> ("/" <> dotted version kind name)))
      (split-group group _ hg (Avoids-dotted version kind name hv hk hn))
    ∙ ap (from_parts group) (split-dotted version kind name hv hk hn)

regroup :
    (group version kind name : String)
    → ((group <> ("/" <> version)) <> ("." <> kind)) <> ("." <> name)
      ≡ group <> ("/" <> dotted version kind name)
regroup group version kind name = simp append_assoc

regroup_core :
    (version kind name : String)
    → (version <> ("." <> kind)) <> ("." <> name) ≡ dotted version kind name
regroup_core version kind name = simp append_assoc

module _ (group_version : String → Option String) where
  get_condition_type-dotted :
      (group version kind name : String)
      → group_version (group <> ("/" <> version)) ≡ some (group <> ("/" <> version))
      → kind ≢ ""
      → name ≢ ""
      → get_condition_type group_version
          (record { api_version = group <> ("/" <> version); kind = kind; name = name })
        ≡ group <> ("/" <> dotted version kind name)
  unfolding get_condition_type
  get_condition_type-dotted group version kind name hv hk hn =
      let gv = group <> ("/" <> version) in
      ground
        (arith, slash-ne-nil group version, dot-ne-nil gv kind, regroup group version kind name)

  get_condition_type-core :
      (version kind name : String)
      → group_version version ≡ some version
      → version ≢ ""
      → kind ≢ ""
      → name ≢ ""
      → get_condition_type group_version
          (record { api_version = version; kind = kind; name = name })
        ≡ dotted version kind name
  unfolding get_condition_type
  get_condition_type-core version kind name hv nv hk hn =
      ground (arith, dot-ne-nil version kind, regroup_core version kind name)

  -- A resource whose API version has a group, with no dot in version, kind and name and no slash
  -- but the one, is read back from its condition type.
  pub get_gvkn_from_condition_type-get_condition_type :
      (group version kind name : String)
      → group_version (group <> ("/" <> version)) ≡ some (group <> ("/" <> version))
      → Avoids b'/' group
      → IsPlain version
      → IsPlain kind
      → IsPlain name
      → kind ≢ ""
      → name ≢ ""
      → let ref : ObjectReference = record {
        api_version = group <> ("/" <> version);
        kind = kind;
        name = name;
      } in
        get_gvkn_from_condition_type (get_condition_type group_version ref) ≡ ref
  get_gvkn_from_condition_type-get_condition_type group version kind name hv hg pv pk pn hk hn =
      ap get_gvkn_from_condition_type (get_condition_type-dotted group version kind name hv hk hn)
      ∙ get_gvkn-dotted group version kind name hg pv pk pn

  -- A resource of the core group, whose API version is a version alone, is read back with a slash
  -- in front of its API version.
  pub get_gvkn_from_condition_type-get_condition_type_core :
      (version kind name : String)
      → group_version version ≡ some version
      → version ≢ ""
      → IsPlain version
      → IsPlain kind
      → IsPlain name
      → kind ≢ ""
      → name ≢ ""
      → get_gvkn_from_condition_type (
          get_condition_type group_version
            (record { api_version = version; kind = kind; name = name }))
        ≡ record { api_version = "" <> "/" <> version; kind = kind; name = name }
  unfolding get_gvkn_from_condition_type
  get_gvkn_from_condition_type-get_condition_type_core version kind name hv nv pv pk pn hk hn =
      ap get_gvkn_from_condition_type (get_condition_type-core version kind name hv nv hk hn)
      ∙ ap (from_groups (dotted version kind name))
          (split-Avoids b'/' _ (Avoids-dotted version kind name pv pk pn))
      ∙ ap (from_parts "") (split-dotted version kind name pv pk pn)
