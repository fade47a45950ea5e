-- ===== src/Examples/Hooks.antt =====
-- The theorems on apps/trapchat/src/hooks at concrete rooms.
use trapchat.Prelude.{
  ℕ, Bool, ◌≡◌, refl, ap₂, ◌+◌, ◌-◌, ◌↔◌, true, false, some, none, String, List, [], ◌∷◌, arith,
  str_eq,
}
use trapchat.Prelude.JsMap.{get, has}
use trapchat.Hooks.Rooms.{RoomState, append_message_to_room}
use trapchat.Hooks.Rooms.Messages.{KeepsNewest, append_message_to_room_lem}
use trapchat.Hooks.Links.{Text, has_slash, share_fragment, read_fragment}
use trapchat.Hooks.Links.Opens.{IsUriCoding, link_opens_iff}
use trapchat.Hooks.RoomKeys.{KeyStore, Setup, found_key, setup_room_key}
use trapchat.Hooks.RoomKeys.Ready.{IsReady, setup_room_key-IsReady}
use trapchat.Crypto.Cipher.{Bytes}
use trapchat.Examples.Crypto.{platform}
use trapchat.Hooks.Typing.{Message, fire_due, sender_name, new as fresh}
use trapchat.Hooks.Typing.Throttle.{IsSpaced, sent_of, sent_of-IsSpaced}
use trapchat.Hooks.Typing.Shown.{Log, typed_at, is_typing, run, shown_refines}

abbrev lobby : RoomState String
lobby = record { messages = "blob:1" ∷ []; unread_count = 0 }

abbrev rooms : List (String × RoomState String)
rooms = ("lobby", lobby) ∷ []

append_message_to_room_lem_example :
    let r = append_message_to_room (λ x. some x) rooms "other" "lobby" "blob:2" in
    (s' : RoomState String) × (get "lobby" r.0 ≡ some s')
    × KeepsNewest (λ x. some x) ("blob:1" ∷ "blob:2" ∷ []) (s', r.1)
    × (s'.unread_count ≡ 1)
    × ((other : String) → str_eq "lobby" other ≡ false → get other r.0 ≡ get other rooms)
unfolding get
append_message_to_room_lem_example =
    append_message_to_room_lem (λ x. some x) rooms "other" "lobby" "blob:2" lobby refl

-- The second of three calls comes too soon.
abbrev calls : List (Bool × ℕ)
calls = (true, 5000) ∷ (true, 6000) ∷ (true, 7000) ∷ []

sent_of-IsSpaced_example : IsSpaced 0 (sent_of fresh calls)
sent_of-IsSpaced_example = sent_of-IsSpaced fresh calls

abbrev typed : Message
typed = record { typing = true; nickname = some "ann"; id = none }

-- Ann typed at 1000.
abbrev log : Log
log = (1000, some typed) ∷ []

shown_refines_example :
    (has "ann" (fire_due 4000 (run (λ s. s) log)).typing_peers ≡ true)
    × (has "ann" (fire_due 4500 (run (λ s. s) log)).typing_peers ≡ false)
unfolding is_typing typed_at sender_name
shown_refines_example = (
  shown_refines (λ s. s) log 4000 (omega arith, tt) "ann",
  shown_refines (λ s. s) log 4500 (omega arith, tt) "ann",
)

-- A coding of names that shifts each unit past the slash.
abbrev shift : Text → Text
shift [] = []
shift (c ∷ s) = (c + 48) ∷ shift s

abbrev shift_back : Text → Text
shift_back [] = []
shift_back (c ∷ s) = (c - 48) ∷ shift_back s

shift-IsUriCoding : IsUriCoding shift shift_back
unfolding has_slash
shift-IsUriCoding = record { comes_back = back; no_slash = none_; not_empty = λ c s e. cc }
  where
    back : (s : Text) → shift_back (shift s) ≡ s
    back [] = refl
    back (c ∷ s) = ap₂ (λ a t. a ∷ t) (omega arith) (back s)

    none_ : (s : Text) → has_slash (shift s) ≡ false
    none_ [] = refl
    none_ (c ∷ s) = ground (arith, none_ s)

-- A key whose text is one slash.
link_opens_iff_example :
    (read_fragment shift_back (share_fragment shift (1 ∷ []) (b'/' ∷ []))
      ≡ some (1 ∷ [], b'/' ∷ []))
    ↔ (has_slash (b'/' ∷ []) ≡ false)
link_opens_iff_example = link_opens_iff shift-IsUriCoding 1 [] b'/' []

-- Nothing is there yet, and there is no passphrase.
abbrev no_keys : KeyStore (Bytes × Bytes)
no_keys = record { keys = []; salts = []; passphrases = [] }

abbrev setup : Setup (Bytes × Bytes)
setup = record {
  room = "lobby";
  passphrase = "";
  salt = none;
  random_salt = [];
  generated = (1 ∷ [], []);
  link = "#lobby/";
  can_export = λ k. true;
}

setup_room_key-IsReady_example :
    IsReady platform no_keys setup false (setup_room_key platform (λ t. t) no_keys setup)
unfolding get found_key
setup_room_key-IsReady_example = setup_room_key-IsReady platform no_keys setup (λ t. t)
