-- ===== src/Waddrmgr/Managed/Scripts.antt =====
-- What `Script` (waddrmgr/address_script.go, waddrmgr/address_witness.go) returns.
use btc_wallet.Base.{
  ℕ, ◌≡◌, ◌≢◌, ◌∙◌, refl, ap, subst, Bool, true, ◌==◌, none, some, length, if◌then◌else◌, arith,
}
use btc_wallet.Errors
use btc_wallet.Errors.{text, manager, wrapped, snacl, err_crypto, err_watching_only, err_locked}
use btc_wallet.Go.{Result, ok, err, panic}
use btc_wallet.Go.Bytes.{Bytes}
use btc_wallet.Btcd.{Btcd, Btcec}
use btc_wallet.Snacl.{Crypto}
use btc_wallet.Snacl.Box.{decrypt}
use btc_wallet.Walletdb.Bolt.{Bolt}
use btc_wallet.Walletdb.Bdb.{Action, Handle, ◌>>=◌}
use btc_wallet.Walletdb.Keeps.{
  Keeps, Keeps-pure, Keeps-lift_then, Keeps-if, Leaves, Leaves-bind, bind_then,
}
use btc_wallet.Waddrmgr.Errors.{wrap_result}
use btc_wallet.Waddrmgr.Rows.{KeyScope}
use btc_wallet.Waddrmgr.Store.Steps.{lift_then}
use btc_wallet.Waddrmgr.Manager.{
  Pointer, ScriptAddress, WitnessScriptAddress, AddressObject, managed_address, script_address,
  witness_script_address, taproot_script_address,
}
use btc_wallet.Waddrmgr.Manager.Lock.{object_at}
use btc_wallet.Waddrmgr.Managed.{text_result}
use btc_wallet.Waddrmgr.Managed.Create.{
  witness_version_v0, witness_version_v1, new_script_address, new_witness_script_address,
}
use btc_wallet.Waddrmgr.Managed.Unlock.{
  unlocked_manager, script_key, unlock_script, unlock_witness, on_object, script_of, script,
}
use btc_wallet.Waddrmgr.Rows.Address.{
  AddressRowInterface, chain_row, imported_row, script_row, witness_script_row,
}
use btc_wallet.Waddrmgr.Scoped.Load.{
  row_interface_to_managed, script_address_row_to_managed, witness_script_address_row_to_managed,
}
use btc_wallet.Waddrmgr.World.{World, Managed, get_manager, get_object, put_object, allocate}

module _ (c : Crypto) (d : Btcd) where
  -- The text in the clear, not the encrypted one, is decrypted.
  unlock_script_refused :
      (key : Bytes) (a : ScriptAddress d)
      → a.script_clear_text ≡ none
      → unlock_script c d key a ≡ (err (wrapped err_crypto (snacl Errors.malformed)), a)
  unfolding unlock_script decrypt
  unlock_script_refused key a bare = rw bare refl

module _ ⦃b : Bolt⦄ (c : Crypto) (d : Btcd) where
  -- An object whose script is not in the clear.
  abbrev pub IsBare : AddressObject d → Type 0
  IsBare (managed_address a) = ⊥
  IsBare (script_address a) = a.script_clear_text ≡ none
  IsBare (witness_script_address a) = a.base.script_clear_text ≡ none
  IsBare (taproot_script_address a key) = a.base.script_clear_text ≡ none

  on_object_refused :
      {A : Type 0} (p : Pointer) (rebuild : A → AddressObject d) (f : Action A Bytes) (a : A)
      (x : Errors.Error)
      → (f a).0 ≡ err x
      → Leaves (λ w. ⊥) (on_object c d p rebuild f a)
  on_object_refused p rebuild f a x h =
      Leaves-bind (put_object d p (rebuild (f a).1)) _
        λ u. record { at = λ w done. absurd (ground (arith, h, done)) }

  unlock_witness_refused :
      (key : Bytes) (a : WitnessScriptAddress d)
      → a.base.script_clear_text ≡ none
      → (unlock_witness c d key a).0 ≡ err (wrapped err_crypto (snacl Errors.malformed))
  unfolding unlock_witness
  unlock_witness_refused key a bare = ap (λ x. x.0) (unlock_script_refused c d key a.base bare)

  script_of-Leaves :
      (p : Pointer) (o : AddressObject d) → IsBare o → Leaves (λ w. ⊥) (script_of c d p o)
  unfolding script_of
  script_of-Leaves p (managed_address a) bare = absurd bare
  script_of-Leaves p (script_address a) bare = Leaves-bind (unlocked_manager c d true) _ λ m.
      on_object_refused p script_address (unlock_script c d m.crypto_key_script) a _
        (ap (λ x. x.0) (unlock_script_refused c d m.crypto_key_script a bare))
  script_of-Leaves p (witness_script_address a) bare =
      Leaves-bind (unlocked_manager c d a.is_secret_script) _ λ m.
        on_object_refused p witness_script_address
          (unlock_witness c d (script_key c d a.is_secret_script m)) a _
          (unlock_witness_refused (script_key c d a.is_secret_script m) a bare)
  script_of-Leaves p (taproot_script_address a key) bare =
      Leaves-bind (unlocked_manager c d a.is_secret_script) _ λ m.
        on_object_refused p (λ o. taproot_script_address o key)
          (unlock_witness c d (script_key c d a.is_secret_script m)) a _
          (unlock_witness_refused (script_key c d a.is_secret_script m) a bare)

  -- `Script` of such an object never returns.
  script-never :
      (p : Pointer) (o : AddressObject d) (w : World d)
      → IsBare o
      → object_at w.manager.objects p ≡ some o
      → (v : Bytes) → (script c d p w).0 ≢ ok v
  unfolding script get_object
  script-never p o w bare held v h = (script_of-Leaves p o bare).at w {a = v} (rw held at h)

  allocated :
      (o : AddressObject d) (w w' : World d) (p : Pointer)
      → allocate d o w ≡ (ok p, w')
      → object_at w'.manager.objects p ≡ some o
  unfolding allocate
  allocated o w w' p h =
      subst (λ x. object_at x.1.manager.objects (pointer_of x.0) ≡ some o) h
        (same_index (length w.manager.objects) (some o)
          (object_at w.manager.objects (length w.manager.objects)))
    where
      pointer_of : Result Pointer → Pointer
      pointer_of (ok p) = p
      pointer_of (err e) = 0
      pointer_of panic = 0

      same_index : {A : Type 0} (n : ℕ) (x y : A) → (if n == n then x else y) ≡ x
      same_index n x y = ground arith

module _ ⦃b : Bolt⦄ (c : Crypto) (d : Btcd) (e : Btcec d) where
  new_script_address-IsBare :
      (account : ℕ) (hash enc : Bytes)
      → Keeps (λ w. Unit {0}) (new_script_address d e account hash enc) (IsBare c d)
  unfolding new_script_address
  new_script_address-IsBare account hash enc =
      Keeps-lift_then (e.new_address_script_hash_from_hash hash) _ λ address. Keeps-pure _ refl

  new_witness_script_address-IsBare :
      (account : ℕ) (ident enc : Bytes) (version : ℕ) (secret : Bool)
      → Keeps
          (λ w. Unit {0})
          (new_witness_script_address d e account ident enc version secret)
          (IsBare c d)
  unfolding new_witness_script_address
  new_witness_script_address-IsBare account ident enc version secret =
      Keeps-if (version == witness_version_v0) _ _
        (Keeps-lift_then (e.new_address_witness_script_hash ident) _ λ address. Keeps-pure _ refl)
        (Keeps-if (version == witness_version_v1) _ _
          (Keeps-lift_then (e.new_address_taproot ident) _ λ address.
            Keeps-lift_then (text_result 21 (e.parse_schnorr ident)) _ λ key. Keeps-pure _ refl)
          (record { run = λ w h. (tt, λ a f. absurd (ground arith)) }))

module _ ⦃b : Bolt⦄ (c : Crypto) (d : Btcd) (e : Btcec d) (random : ℕ → ℕ → Result Bytes)
    (sha256 : Bytes → Bytes) (ns : Handle) (scope : KeyScope) where
  -- The rows of addresses with a script.
  abbrev pub IsScriptRow : AddressRowInterface → Type 0
  IsScriptRow (chain_row row) = ⊥
  IsScriptRow (imported_row row) = ⊥
  IsScriptRow (script_row row) = Unit {0}
  IsScriptRow (witness_script_row row) = Unit {0}

  -- The object behind the pointer that a step and an allocation return.
  IsBare-allocated :
      (m : Managed d (AddressObject d)) (w w' : World d) (p : Pointer)
      → Keeps (λ x. Unit {0}) m (IsBare c d)
      → (m >>= allocate d) w ≡ (ok p, w')
      → (o : AddressObject d) × (IsBare c d o) × (object_at w'.manager.objects p ≡ some o)
  IsBare-allocated m w w' p bare h =
      let (o, made, h1) = bind_then m (allocate d) w h in
      (o, (bare.run w tt).1 o (ap (λ x. x.0) made), allocated c d o _ w' p h1)

  script_loaded :
      (row : AddressRowInterface) (w w' : World d) (p : Pointer)
      → IsScriptRow row
      → row_interface_to_managed c d e random sha256 ns scope row w ≡ (ok p, w')
      → (o : AddressObject d) × (IsBare c d o) × (object_at w'.manager.objects p ≡ some o)
  unfolding row_interface_to_managed script_address_row_to_managed
      witness_script_address_row_to_managed get_manager
  script_loaded (chain_row row) w w' p is h = absurd is
  script_loaded (imported_row row) w w' p is h = absurd is
  script_loaded (script_row row) w w' p is h =
      let (hash, opened, h1) =
        lift_then (wrap_result err_crypto (decrypt c w.manager.crypto_key_pub row.encrypted_hash)) _
          w h in
      IsBare-allocated _ w w' p
        (new_script_address-IsBare c d e row.row.account hash row.encrypted_script) h1
  script_loaded (witness_script_row row) w w' p is h =
      let (hash, opened, h1) =
        lift_then (wrap_result err_crypto (decrypt c w.manager.crypto_key_pub row.encrypted_hash)) _
          w h in
      IsBare-allocated _ w w' p
        (new_witness_script_address-IsBare c d e row.row.account hash row.encrypted_script
          row.witness_version row.is_secret_script)
        h1

  -- Script of an address that rowInterfaceToManaged has made from the row of a script address or
  -- of a witness script address returns no script, as long as the address is as it was made.
  pub loaded_script-never :
      (row : AddressRowInterface) (w w' u : World d) (p : Pointer)
      → IsScriptRow row
      → row_interface_to_managed c d e random sha256 ns scope row w ≡ (ok p, w')
      → object_at u.manager.objects p ≡ object_at w'.manager.objects p
      → (v : Bytes) → (script c d p u).0 ≢ ok v
  loaded_script-never row w w' u p is loaded same v =
      let (o, bare, held) = script_loaded row w w' p is loaded in
      script-never c d p o u bare (same ∙ held) v
