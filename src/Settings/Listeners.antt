-- ===== src/Settings/Listeners.antt =====
-- frontend/js/settings.js: who is told of a change, and how often.
use orbital_viewer.Base.{
  ℕ, ◌+◌, max, ◌≡◌, refl, sym, ap, ◌∙◌, Bool, true, false, not, none, some, List, [], ◌∷◌, ◌++◌,
  map, arith, ◌==◌, if◌then◌else◌, keep,
}
use orbital_viewer.Settings.Patch.{Settings, Conversions}
use orbital_viewer.Settings.Sessions.{
  Action, do_update, do_reset, do_subscribe, do_unsubscribe, act, run,
}
use orbital_viewer.Settings.Store.{
  Json, Storage, Store, create_settings, update, reset_defaults, on_change, off_change, add,
}
use orbital_viewer.Value.{Value, obj, Fields}

-- How often `cb` stands in a list of listeners.
abbrev pub count : ℕ → List ℕ → ℕ
count cb [] = 0
count cb (x ∷ xs) = (if x == cb then 1 else 0) + count cb xs

-- The settings that `cb` was called with.
abbrev pub received : ℕ → List (ℕ × Settings) → List Settings
received cb [] = []
received cb ((k, s) ∷ calls) = if k == cb then s ∷ received cb calls else received cb calls

-- Whether the calls leave `cb` registered: the last subscription or removal of it decides.
abbrev pub subscribed : ℕ → Bool → List Action → Bool
subscribed cb b [] = b
subscribed cb b (do_subscribe (some k) ∷ as_) = subscribed cb (if k == cb then true else b) as_
subscribed cb b (do_unsubscribe k ∷ as_) = subscribed cb (if k == cb then false else b) as_
subscribed cb b (_ ∷ as_) = subscribed cb b as_

abbrev pub to_ℕ : Bool → ℕ
to_ℕ true = 1
to_ℕ false = 0

count-add :
    (cb k : ℕ) (xs : List ℕ)
    → count cb (add k xs) ≡ (if k == cb then max 1 (count cb xs) else count cb xs)
count-add cb k [] = ground arith
count-add cb k (x ∷ xs) = ground (arith, count-add cb k xs)

count-keep :
    (cb k : ℕ) (xs : List ℕ)
    → count cb (keep (λ x. not (x == k)) xs) ≡ (if k == cb then 0 else count cb xs)
count-keep cb k [] = ground arith
count-keep cb k (x ∷ xs) = ground (arith, count-keep cb k xs)

received-map :
    (cb : ℕ) (s : Settings) (xs : List ℕ) (b : Bool)
    → count cb xs ≡ to_ℕ b
    → received cb (map (λ k. (k, s)) xs) ≡ (if b then s ∷ [] else [])
received-map cb s [] b h = ground arith
received-map cb s (x ∷ xs) b h = ground (arith, received-map cb s xs b, received-map cb s xs false)

received-append :
    (cb : ℕ) (xs ys : List (ℕ × Settings))
    → received cb (xs ++ ys) ≡ received cb xs ++ received cb ys
received-append cb [] ys = refl
received-append cb ((k, s) ∷ xs) ys = ground (arith, received-append cb xs ys)

module _ (c : Conversions) (json : Json) where
  count-act :
      (cb : ℕ) (s : Store) (a : Action) (b : Bool)
      → count cb s.listeners ≡ to_ℕ b
      → count cb (act c json s a).listeners ≡ to_ℕ (subscribed cb b (a ∷ []))
  unfolding act update reset_defaults on_change off_change
  count-act cb s (do_update (obj fs)) b h = ground arith
  count-act cb s (do_update _) b h = h
  count-act cb s do_reset b h = ground arith
  count-act cb s (do_subscribe none) b h = h
  count-act cb s (do_subscribe (some k)) b h = ground (arith, count-add cb k s.listeners)
  count-act cb s (do_unsubscribe k) b h = ground (arith, count-keep cb k s.listeners)

  subscribed-cons :
      (cb : ℕ) (b : Bool) (a : Action) (as_ : List Action)
      → subscribed cb b (a ∷ as_) ≡ subscribed cb (subscribed cb b (a ∷ [])) as_
  subscribed-cons cb b (do_subscribe (some k)) as_ = refl
  subscribed-cons cb b (do_subscribe none) as_ = refl
  subscribed-cons cb b (do_unsubscribe k) as_ = refl
  subscribed-cons cb b do_reset as_ = refl
  subscribed-cons cb b (do_update v) as_ = refl

  count-run :
      (cb : ℕ) (s : Store) (as_ : List Action) (b : Bool)
      → count cb s.listeners ≡ to_ℕ b
      → count cb (run c json s as_).listeners ≡ to_ℕ (subscribed cb b as_)
  unfolding run
  count-run cb s [] b h = h
  count-run cb s (a ∷ as_) b h =
      count-run cb (act c json s a) as_ (subscribed cb b (a ∷ [])) (count-act cb s a b h)
      ∙ ap to_ℕ (sym (subscribed-cons cb b a as_))

  create_settings-listeners :
      (storage : Storage) (site : Value) → (create_settings c json storage site).listeners ≡ []
  unfolding create_settings
  create_settings-listeners storage site = refl

  update-calls :
      (s : Store) (patch : Fields)
      → let t = update c json s (obj patch) in
        t.calls ≡ s.calls ++ map (λ k. (k, t.current)) s.listeners
  unfolding update
  update-calls s patch = ground arith

  -- After any calls on a new store, an update calls a listener once, with the new settings, if its last
  -- subscription has not been removed, and does not call it otherwise; subscribing twice counts once.
  pub received-update :
      (cb : ℕ) (storage : Storage) (site : Value) (as_ : List Action) (patch : Fields)
      → let s = run c json (create_settings c json storage site) as_ in
        let t = update c json s (obj patch) in
        received cb t.calls
        ≡ received cb s.calls ++ (if subscribed cb false as_ then t.current ∷ [] else [])
  received-update cb storage site as_ patch =
      let s = run c json (create_settings c json storage site) as_ in
      let t = update c json s (obj patch) in
      ap (received cb) (update-calls s patch)
      ∙ received-append cb s.calls (map (λ k. (k, t.current)) s.listeners)
      ∙ ap (received cb s.calls ++◌) (
          received-map cb t.current s.listeners (subscribed cb false as_)
            (count-run cb _ as_ false (ap (count cb) (create_settings-listeners storage site))))
