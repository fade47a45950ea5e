-- ===== src/Hooks/RoomKeys/Ready.antt =====
-- Which key a room has after `setupRoomKey` (apps/trapchat/src/hooks/useRoomManager.js).
use trapchat.Prelude.{
  ◌≡◌, ◌⊎◌, inl, inr, refl, ◌∙◌, Bool, true, false, not, Option, none, some, String, if◌then◌else◌,
  str_eq, eq_refl, arith,
}
use trapchat.Prelude.JsMap.{get, put, get-put}
use trapchat.Crypto.Cipher.{Platform, derive_room_key, export_key, import_key}
use Prim.Native.String.{◌++◌ as join}
use trapchat.Hooks.RoomKeys.{
  KeyRef, fragment, key, KeyStore, Setup, Found, text, ready, nothing, found_key, salt_or, put_key,
  exported, key_link, from_fragment, from_passphrase, from_nothing, without_passphrase,
  setup_room_key,
}

-- Whether the key comes from the passphrase: there is no text of a link, which goes first.
abbrev pub is_derived : {K : Type 0} → (String → String) → KeyStore K → Setup K → Bool
is_derived trim s c = elim (found_key (get c.room s.keys)) [
  | text t ↦ false
  | _ ↦ not (str_eq (trim c.passphrase) "")
]

found_ready :
    {K : Type 0} (o : Option (KeyRef K)) (k : K) → found_key o ≡ ready k → o ≡ some (key k)
unfolding found_key
found_ready none k e = cc
found_ready (some (fragment t)) k e = ground (arith, e)
found_ready (some (key j)) k e = cc

module _ {K : Type 0} (s : KeyStore K) (c : Setup K) where
  put_key-IsReady :
      (k : K)
      → (get c.room (put c.room (key k) s.keys) ≡ some (key k))
        × ((other : String)
            → str_eq c.room other ≡ false
            → get other (put c.room (key k) s.keys) ≡ get other s.keys)
  put_key-IsReady k = (
    get-put c.room c.room (key k) s.keys ∙ rw (eq_refl c.room) refl,
    λ other n. get-put c.room other (key k) s.keys ∙ rw n refl,
  )

module _ {K : Type 0} (p : Platform K) where
  -- What is shared for a key.
  abbrev pub link_for : Setup K → Bool → K → String
  link_for c derived k =
      if derived then c.link else if c.can_export k then join c.link (export_key p k) else c.link

  key_link_lem : (c : Setup K) (k : K) → key_link p c k ≡ link_for c false k
  unfolding key_link exported
  key_link_lem c k = ground arith

  -- A call that gives a key and a link, or throws. Where it throws it left the keys as they were, but for a
  -- generated one that could not be exported.
  abbrev pub IsReady : KeyStore K → Setup K → Bool → KeyStore K × Option (K × String) → Type 0
  IsReady s c derived (s', none) =
      (s'.keys ≡ s.keys)
      ⊎ ((c.can_export c.generated ≡ false) × (s'.keys ≡ put c.room (key c.generated) s.keys))
  IsReady s c derived (s', some (k, link)) =
      (get c.room s'.keys ≡ some (key k))
      × ((other : String) → str_eq c.room other ≡ false → get other s'.keys ≡ get other s.keys)
      × (link ≡ link_for c derived k)

module _ {K : Type 0} (p : Platform K) (s : KeyStore K) (c : Setup K) where
  given_key :
      (derived : Bool) (s' : KeyStore K) (k : K) (link : String)
      → s'.keys ≡ s.keys
      → link ≡ link_for p c derived k
      → IsReady p s c derived (put_key s' c.room k, some (k, link))
  given_key derived s' k link same e = rw same (let r = put_key-IsReady s c k in (r.0, r.1, e))

  from_fragment-IsReady : (t : String) → IsReady p s c false (from_fragment p s c t)
  unfolding from_fragment
  from_fragment-IsReady t = go (import_key p t)
    where
      go :
          (o : Option K)
          → IsReady p s c false (elim o [
            | none ↦ (s, none)
            | some k ↦ (put_key s c.room k, some (k, key_link p c k))
          ])
      go none = inl refl
      go (some k) = given_key false s k (key_link p c k) refl (key_link_lem p c k)

  from_passphrase-IsReady : IsReady p s c true (from_passphrase p s c)
  unfolding from_passphrase
  from_passphrase-IsReady =
      go (derive_room_key p c.room c.passphrase (salt_or c.salt c.random_salt))
    where
      s' : KeyStore K
      s' = record s {
        salts = put c.room (salt_or c.salt c.random_salt) s.salts;
        passphrases = put c.room c.passphrase s.passphrases;
      }

      go :
          (o : Option K)
          → IsReady p s c true
              (elim o [ none ↦ (s', none) | some k ↦ (put_key s' c.room k, some (k, c.link)) ])
      go none = inl refl
      go (some k) = given_key true s' k c.link refl refl

  from_nothing-IsReady : IsReady p s c false (from_nothing p s c)
  unfolding from_nothing exported
  from_nothing-IsReady = go (c.can_export c.generated) refl
    where
      go :
          (b : Bool)
          → c.can_export c.generated ≡ b
          → let e : Option String = if b then some (export_key p c.generated) else none in
            IsReady p s c false (elim e [
              | none ↦ (put_key s c.room c.generated, none)
              | some t ↦ (put_key s c.room c.generated, some (c.generated, join c.link t))
            ])
      go false e = inr (e, refl)
      go true e =
          given_key false s c.generated (join c.link (export_key p c.generated)) refl (rw e refl)

  without_passphrase-IsReady :
      (f : Found K)
      → found_key (get c.room s.keys) ≡ f
      → IsReady p s c false (without_passphrase p s c f)
  unfolding without_passphrase
  without_passphrase-IsReady (ready k) e =
      (found_ready (get c.room s.keys) k e, λ other n. refl, key_link_lem p c k)
  without_passphrase-IsReady (text t) e = from_nothing-IsReady
  without_passphrase-IsReady nothing e = from_nothing-IsReady

  -- Whatever the room has: where `setupRoomKey` gives a key, it is the room's key from then on, no other
  -- room's key changes, and the link that is shared has that key exactly if it does not come from a
  -- passphrase and can be exported; where it throws, no key changes, but that a generated key that
  -- cannot be exported stays the room's.
  pub setup_room_key-IsReady :
      (trim : String → String) → IsReady p s c (is_derived trim s c) (setup_room_key p trim s c)
  unfolding setup_room_key
  setup_room_key-IsReady trim =
      go (found_key (get c.room s.keys)) refl (str_eq (trim c.passphrase) "")
    where
      go :
          (f : Found K)
          → found_key (get c.room s.keys) ≡ f
          → (blank : Bool)
          → let other = if not blank then from_passphrase p s c else without_passphrase p s c f in
            IsReady p s c
              (elim f [ text t ↦ false | _ ↦ not blank ])
              (elim f [ text t ↦ from_fragment p s c t | _ ↦ other ])
      go (text t) e blank = from_fragment-IsReady t
      go (ready k) e true = without_passphrase-IsReady (ready k) e
      go (ready k) e false = from_passphrase-IsReady
      go nothing e true = without_passphrase-IsReady nothing e
      go nothing e false = from_passphrase-IsReady
