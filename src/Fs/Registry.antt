-- ===== src/Fs/Registry.antt =====
-- Registering and removing drivers.
use janus.Base.{
  ℕ, ◌≡◌, ◌≢◌, refl, ◌∙◌, ap, Bool, true, false, Option, none, some, List, [], ◌∷◌, ◌++◌,
  if◌then◌else◌, same_text, same_text_self, Bool-cases, inl, inr,
}
use janus.Memory.{Mem}
use janus.Memory.Read.{le}
use janus.Fs.{
  Driver, Fs, module_driver, register_module, keep, unlink, unlinked, remove_from,
  unregister_module,
}

-- A driver of the list has that name.
unfoldable pub registered : List ℕ → List Driver → Bool
registered name [] = false
registered name (d ∷ ds) = if same_text d.drv_name name then true else registered name ds

-- The list without the first driver of that name.
unfoldable pub without : List ℕ → List Driver → List Driver
without name [] = []
without name (d ∷ ds) = if same_text d.drv_name name then ds else d ∷ without name ds

-- The list that `unlink` leaves, or that there is nothing to unlink.
left : Option (List Driver × Driver) → List Driver → List Driver
left none ds = ds
left (some (ds', p)) ds = ds'

found : Option (List Driver × Driver) → Bool
found none = false
found (some r) = true

found-unlink :
    (name : List ℕ) (prev : Driver) (ds : List Driver)
    → found (unlink name prev ds) ≡ registered name ds
unfolding unlink registered found
found-unlink name prev [] = refl
found-unlink name prev (d ∷ ds) = elim (Bool-cases (same_text d.drv_name name)) [
  | inl hit ↦ rw hit
  | inr miss ↦ rw (miss, kept (unlink name d ds)) (found-unlink name d ds)
]
  where
    kept : (r : Option (List Driver × Driver)) → found (keep d r) ≡ found r
    kept none = refl
    kept (some (ds', p)) = refl

left-unlink :
    (name : List ℕ) (prev : Driver) (ds : List Driver)
    → left (unlink name prev ds) ds ≡ without name ds
unfolding unlink without left
left-unlink name prev [] = refl
left-unlink name prev (d ∷ ds) = elim (Bool-cases (same_text d.drv_name name)) [
  | inl hit ↦ rw hit
  | inr miss ↦ rw (miss, kept (unlink name d ds)) (ap (λ l. d ∷ l) (left-unlink name d ds))
]
  where
    kept : (r : Option (List Driver × Driver)) → left (keep d r) (d ∷ ds) ≡ d ∷ left r ds
    kept none = refl
    kept (some (ds', p)) = refl

unlinked_lem :
    (s : Fs) (d : Driver) (ds : List Driver) (r : Option (List Driver × Driver))
    → s.drv_list ≡ d ∷ ds
    → ((unlinked s d r).0 ≡ (if found r then 1 else 0))
      × ((unlinked s d r).1.drv_list ≡ d ∷ left r ds)
unfolding unlinked found left
unlinked_lem s d ds none e = (refl, e)
unlinked_lem s d ds (some (ds', p)) e = (refl, refl)

remove_from_lem :
    (s : Fs) (name : List ℕ) (l : List Driver)
    → s.drv_list ≡ l
    → l ≢ []
    → (s' : Fs) × (remove_from s name l ≡ some (if registered name l then 1 else 0, s'))
      × (s'.drv_list ≡ without name l)
unfolding remove_from registered without
remove_from_lem s name [] e ne = absurd (ne refl)
remove_from_lem s name (d ∷ ds) e ne = elim (Bool-cases (same_text d.drv_name name)) [
  | inl hit ↦ (record s { drv_list = ds }, rw hit, rw hit)
  | inr miss ↦
      let (code, list) = unlinked_lem s d ds (unlink name d ds) e in
      (
        (unlinked s d (unlink name d ds)).1,
        rw (miss, ← found-unlink name d ds, ← code) refl,
        rw miss (list ∙ ap (λ l. d ∷ l) (left-unlink name d ds)),
      )
]

-- On a list that is not empty `unregister_module` returns: it takes out the first driver of that
-- name and no other, and reports whether there was one.
pub unregister_module-without :
    (s : Fs) (name : List ℕ)
    → s.drv_list ≢ []
    → (s' : Fs) × (unregister_module s name
        ≡ some (if registered name s.drv_list then 1 else 0, s'))
      × (s'.drv_list ≡ without name s.drv_list)
unfolding unregister_module
unregister_module-without s name ne = remove_from_lem s name s.drv_list refl ne

without-snoc :
    (name : List ℕ) (ds : List Driver) (d : Driver)
    → registered name ds ≡ false
    → same_text d.drv_name name ≡ true
    → (without name (ds ++ d ∷ []) ≡ ds) × (registered name (ds ++ d ∷ []) ≡ true)
unfolding registered without
without-snoc name [] d h e = rw e (refl, refl)
without-snoc name (c ∷ ds) d h e = elim (Bool-cases (same_text c.drv_name name)) [
  | inl hit ↦ cc
  | inr miss ↦
      let (w, r) = without-snoc name ds d (rw (← h, miss)) e in rw miss (ap (λ l. c ∷ l) w, r)
]

snoc-ne-nil : (ds : List Driver) (d : Driver) → ds ++ d ∷ [] ≢ []
snoc-ne-nil [] d e = cc
snoc-ne-nil (c ∷ ds) d e = cc

-- A module with a good signature and a name that no driver has can be registered and removed by
-- its name, and the list is then as it was.
pub unregister_module-register_module :
    (m : Mem) (s : Fs) (a : ℕ)
    → le 2 m a ≡ 0xef86
    → registered (module_driver m a).drv_name s.drv_list ≡ false
    → (s' : Fs) × (unregister_module (register_module m s a).1 (module_driver m a).drv_name
        ≡ some (1, s'))
      × (s'.drv_list ≡ s.drv_list)
unfolding register_module
unregister_module-register_module m s a sign new =
    let name = (module_driver m a).drv_name in
    let s1 : Fs = record s { drv_list = s.drv_list ++ module_driver m a ∷ [] } in
    let (w, r) = without-snoc name s.drv_list (module_driver m a) new (same_text_self name) in
    let (s', run, list) =
      unregister_module-without s1 name (snoc-ne-nil s.drv_list (module_driver m a)) in
    (s', rw sign (run ∙ ap (λ b. some (if b then 1 else 0, s')) r), list ∙ w)
