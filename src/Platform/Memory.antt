-- ===== src/Platform/Memory.antt =====
-- What internal/platform/windows.go frees and closes.
use px_go.Prelude.{
  ℕ, ◌≡◌, refl, ◌∙◌, Bool, true, false, List, ◌∷◌, Option, none, some, ◌==◌, Bool-cases, inl, inr,
}
use px_go.Strings.{Bytes, text}
use px_go.Platform.{
  Pointer, RawConfig, Windows, free_if_needed, read_config, ie_proxy_config, load_proxy_info,
  with_key, install_as, install, uninstall,
}

-- The texts that are allocated for the caller, and the keys of the registry that are open, the
-- latest first.
pub record Books (W : Type 0) : Type 0 where
  pub texts : W → List Pointer
  pub keys : W → List ℕ

-- The texts with the one at the pointer, unless that is null.
abbrev pub owned : Pointer → List Pointer → List Pointer
owned p l = elim (p == 0) [ true ↦ l | false ↦ p ∷ l ]

abbrev pub Kept : {W : Type 0} → Books W → W → W → Type 0
Kept books v w = (books.texts v ≡ books.texts w) × (books.keys v ≡ books.keys w)

-- What Windows documents: a configuration that is answered hands over its texts, freeing gives one
-- back, a key that is made or opened is open until it is closed, and setting or deleting a value
-- opens nothing.
pub record IsKept {W : Type 0} (api : Windows W) (books : Books W) : Type 0 where
  pub config_none : (w v : W) → api.get_config w ≡ (v, none) → Kept books v w
  pub config_some :
      (w v : W) (raw : RawConfig)
      → api.get_config w ≡ (v, some raw)
      → (books.texts v
          ≡ owned raw.auto_config_url (owned raw.proxy (owned raw.proxy_bypass (books.texts w))))
        × (books.keys v ≡ books.keys w)
  pub freed :
      (w : W) (p : Pointer) (l : List Pointer)
      → books.texts w ≡ p ∷ l
      → (books.texts (api.free w p) ≡ l) × (books.keys (api.free w p) ≡ books.keys w)
  pub create_none : (w v : W) → api.create_key w ≡ (v, none) → Kept books v w
  pub create_some :
      (w v : W) (key : ℕ)
      → api.create_key w ≡ (v, some key)
      → (books.texts v ≡ books.texts w) × (books.keys v ≡ key ∷ books.keys w)
  pub open_none : (w v : W) → api.open_key w ≡ (v, none) → Kept books v w
  pub open_some :
      (w v : W) (key : ℕ)
      → api.open_key w ≡ (v, some key)
      → (books.texts v ≡ books.texts w) × (books.keys v ≡ key ∷ books.keys w)
  pub set : (w : W) (key : ℕ) (name value : Bytes) → Kept books (api.set_value w key name value).0 w
  pub delete : (w : W) (key : ℕ) (name : Bytes) → Kept books (api.delete_value w key name).0 w
  pub closed :
      (w : W) (key : ℕ) (l : List ℕ)
      → books.keys w ≡ key ∷ l
      → (books.keys (api.close_key w key) ≡ l) × (books.texts (api.close_key w key) ≡ books.texts w)

module _ {W : Type 0} (api : Windows W) (books : Books W) (kept : IsKept api books) where
  free_if_needed-texts :
      (w : W) (p : Pointer) (l : List Pointer)
      → books.texts w ≡ owned p l
      → (books.texts (free_if_needed api w p) ≡ l)
        × (books.keys (free_if_needed api w p) ≡ books.keys w)
  unfolding free_if_needed
  free_if_needed-texts w p l h = elim (Bool-cases (p == 0)) [
    | inl t ↦ rw t (rw (owned, t) at h, refl)
    | inr t ↦ rw t (kept.freed w p l (rw (owned, t) at h))
  ]

  read_config-Kept :
      (w : W) (r : W × Option RawConfig) → api.get_config w ≡ r → Kept books (read_config api r).0 w
  unfolding read_config
  read_config-Kept w (v, none) e = kept.config_none w v e
  read_config-Kept w (v, some raw) e =
      let given = kept.config_some w v raw e in
      let one = free_if_needed-texts v raw.auto_config_url _ given.0 in
      let two = free_if_needed-texts _ raw.proxy _ one.0 in
      let three = free_if_needed-texts _ raw.proxy_bypass _ two.0 in
      (three.0, three.1 ∙ two.1 ∙ one.1 ∙ given.1)

  -- Where Windows keeps its books as documented, LoadProxyInfo frees every text that it was given.
  pub load_proxy_info-Kept : (w : W) → Kept books (load_proxy_info api w).0 w
  unfolding load_proxy_info ie_proxy_config
  load_proxy_info-Kept w = read_config-Kept w (api.get_config w) refl

  with_key-Kept :
      (w : W) (r : W × Option ℕ) (change : W → ℕ → W × Bool)
      → ((v : W) → r ≡ (v, none) → Kept books v w)
      → ((v : W) (key : ℕ)
          → r ≡ (v, some key)
          → (books.texts v ≡ books.texts w) × (books.keys v ≡ key ∷ books.keys w))
      → ((v : W) (key : ℕ) → Kept books (change v key).0 v)
      → Kept books (with_key api r change).0 w
  with_key-Kept w (v, none) change fails opens same = fails v refl
  with_key-Kept w (v, some key) change fails opens same =
      let opened = opens v key refl in
      let changed = same v key in
      let closed = kept.closed (change v key).0 key (books.keys w) (changed.1 ∙ opened.1) in
      (closed.1 ∙ changed.0 ∙ opened.0, closed.0)

  install_as-Kept :
      (w : W) (exe : Option Bytes) (config_path : Bytes)
      → Kept books (install_as api w exe config_path).0 w
  unfolding install_as
  install_as-Kept w none config_path = (refl, refl)
  install_as-Kept w (some exe) config_path =
      with_key-Kept w (api.create_key w) _ (kept.create_none w) (kept.create_some w)
        (λ v key. kept.set v key (text "Px") _)

  -- Install and Uninstall close the key that they opened, and leave the open texts.
  pub install-Kept :
      (w : W) (config_path : Bytes)
      → Kept books (install api w config_path).0 w × Kept books (uninstall api w).0 w
  unfolding install uninstall
  install-Kept w config_path = (
    install_as-Kept w api.executable config_path,
    with_key-Kept w (api.open_key w) _ (kept.open_none w) (kept.open_some w)
        (λ v key. kept.delete v key (text "Px")),
  )
