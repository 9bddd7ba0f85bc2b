-- ===== src/Prober/Build/Peers.antt =====
-- Which members a fallback leg has as its peers (src/prober/mod.rs).
use Prim.Native.String.{String}
use cfab.Prelude.{
  ◌≡◌, ◌≢◌, refl, sym, subst, inl, inr, Bool, true, false, List, [], ◌∷◌, some, All, All-mono, In,
  arith, any, if◌then◌else◌, Bool-cases,
}
use cfab.Prelude.Gives.{Gives, some-Gives, >>=-Gives, map-Gives}
use cfab.Prelude.Search.{any-In, In-any}
use cfab.Prelude.BTreeMap.{string_ord, nat_ord, key_eq, key_eq_iff}
use cfab.Model.{Member, zone}
use cfab.Model.Derive.{FallbackRow, fallback_rows_of}
use cfab.Model.View.{View}
use cfab.Prober.Build.{peers_among}

-- Another member of the list that has a bond leg in the zone.
abbrev pub Other : View → String → List Member → Member → Type 0
Other v zone ms m =
    In m ms
    × (m.name ≢ v.member.name)
    × ((rows : List FallbackRow) × (fallback_rows_of v.fabric m ≡ some rows)
        × ((q : FallbackRow) × In q rows × (q.zone ≡ zone)))

-- The members of a list are the others that have a bond leg in the zone, and all of them.
abbrev pub Peers : View → String → List Member → List Member → Type 0
Peers v zone ms peers =
    All (Other v zone ms) peers × ((m : Member) → Other v zone ms m → In m peers)

module _ (v : View) (zone : String) (m : Member) (ms : List Member) where
  Other-later : (p : Member) → Other v zone ms p → Other v zone (m ∷ ms) p
  Other-later p (i, apart, legs) = (inr i, apart, legs)

  -- The first member is none of the others.
  skip-Peers :
      (peers : List Member)
      → (Other v zone (m ∷ ms) m → ⊥)
      → Peers v zone ms peers
      → Peers v zone (m ∷ ms) peers
  skip-Peers peers never (sound, all) =
      (All-mono _ _ peers Other-later sound, λ p o. later p o.0 o.1 o.2)
    where
      later :
          (p : Member)
          → In p (m ∷ ms)
          → p.name ≢ v.member.name
          → ((rows : List FallbackRow) × (fallback_rows_of v.fabric p ≡ some rows)
              × ((q : FallbackRow) × In q rows × (q.zone ≡ zone)))
          → In p peers
      later p (inl same) apart legs =
          absurd (never (subst (Other v zone (m ∷ ms)) (sym same) (inl same, apart, legs)))
      later p (inr i) apart legs = all p (i, apart, legs)

  take-Peers :
      (peers : List Member)
      → Other v zone (m ∷ ms) m
      → Peers v zone ms peers
      → Peers v zone (m ∷ ms) (m ∷ peers)
  take-Peers peers other (sound, all) =
      ((other, All-mono _ _ peers Other-later sound), λ p o. later p o.0 o)
    where
      later : (p : Member) → In p (m ∷ ms) → Other v zone (m ∷ ms) p → In p (m ∷ peers)
      later p (inl same) o = inl same
      later p (inr i) (_, apart, legs) = inr (all p (i, apart, legs))

  with_rows :
      (rows : List FallbackRow) (b : Bool) (peers : List Member)
      → any (λ (r : FallbackRow). key_eq r.zone zone) rows ≡ b
      → fallback_rows_of v.fabric m ≡ some rows
      → m.name ≢ v.member.name
      → Peers v zone ms peers
      → Peers v zone (m ∷ ms) (if b then m ∷ peers else peers)
  with_rows rows true peers some_leg has apart a =
      let (q, i, e) = any-In (λ (r : FallbackRow). key_eq r.zone zone) rows some_leg in
      take-Peers peers (inl refl, apart, (rows, has, (q, i, (key_eq_iff q.zone zone).0 e))) a
  with_rows rows false peers no_leg has apart a =
      skip-Peers peers
        (λ o.
          let (_, _, (rows', has', (q, i, e))) = o in
          let same : rows' ≡ rows = ground (arith, has, has') in
          let there =
            In-any (λ (r : FallbackRow). key_eq r.zone zone) rows q
              (subst (λ (rs : List FallbackRow). In q rs) same i) ((key_eq_iff q.zone zone).1 e) in
          absurd (ground (arith, there, no_leg)))
        a

pub peers_among-Peers :
    (v : View) (zone : String) (ms : List Member) → Gives (Peers v zone ms) (peers_among v zone ms)
peers_among-Peers v zone [] = some-Gives (Peers v zone []) [] (tt, λ m o. o.0)
peers_among-Peers v zone (m ∷ ms) =
    let rest = peers_among-Peers v zone ms in
    elim (Bool-cases (key_eq m.name v.member.name)) [
      | inl same ↦ rw same λ peers e.
          skip-Peers v zone m ms peers (λ o. o.1 ((key_eq_iff m.name v.member.name).0 same))
            (rest peers e)
      | inr other ↦
          let apart : m.name ≢ v.member.name =
            λ e. absurd (ground (arith, other, key_eq_iff m.name v.member.name, e)) in
          rw other (
            >>=-Gives (λ rows. fallback_rows_of v.fabric m ≡ some rows) (Peers v zone (m ∷ ms))
              (fallback_rows_of v.fabric m) _ (λ _ e. e)
              λ rows has.
                map-Gives (Peers v zone ms) (Peers v zone (m ∷ ms)) _ (peers_among v zone ms) rest
                  λ peers a.
                    with_rows v zone m ms rows (any (λ (r : FallbackRow). key_eq r.zone zone) rows)
                      peers refl has apart a)
    ]
