-- ===== src/Hooks/CallManager/Valid.antt =====
-- What the calls of a page keep (apps/trapchat/src/hooks/useCallManager.js), and the two switches.
use trapchat.Prelude.{
  ℕ, ◌≡◌, ◌∙◌, ap, subst, Bool, false, not, Option, none, some, List, [], ◌∷◌, ◌++◌, is_some, arith,
  Option-cases, inl, inr,
}
use trapchat.Hooks.CallManager.{Calls, Stream, toggle_mute, toggle_video}

-- What the flags say of the tracks of a local stream.
abbrev pub AreShown : Option Stream → Bool → Bool → Type 0
AreShown none muted video_off = (muted ≡ false) × (video_off ≡ false)
AreShown (some x) muted video_off =
    ((e : Bool) → x.audio_enabled ≡ some e → muted ≡ not e)
    × ((e : Bool) → x.video_enabled ≡ some e → video_off ≡ not e)

abbrev pub id_of : Option Stream → List ℕ
id_of none = []
id_of (some x) = x.id ∷ []

pub record IsValid (s : Calls) : Type 0 where
  pub with_stream : s.call_active ≡ is_some s.local_stream
  pub kept : s.acquired ≡ s.released ++ id_of s.local_stream
  pub shown : AreShown s.local_stream s.call_muted s.call_video_off

pub toggle_mute-IsValid : (s : Calls) → IsValid s → IsValid (toggle_mute s)
unfolding toggle_mute
toggle_mute-IsValid s v = elim (Option-cases s.local_stream) [
  | inl n ↦ ground (arith, n, v)
  | inr (x, l) ↦ elim (Option-cases x.audio_enabled) [
    | inl n ↦ ground (arith, l, n, v)
    | inr (e, a) ↦ let r = toggled x e l in ground (arith, l, a, r)
  ]
]
  where
    toggled :
        (x : Stream) (e : Bool)
        → s.local_stream ≡ some x
        → IsValid (record s {
          local_stream = some (record x { audio_enabled = some (not e) });
          call_muted = e;
        })
    toggled x e l =
        let sh : AreShown (some x) s.call_muted s.call_video_off =
          subst (λ o. AreShown o s.call_muted s.call_video_off) l v.shown in
        record {
          with_stream = v.with_stream ∙ ap is_some l;
          kept = v.kept ∙ ap (λ o. s.released ++ id_of o) l;
          shown = (λ e' q. ground (arith, q), sh.1);
        }

pub toggle_video-IsValid : (s : Calls) → IsValid s → IsValid (toggle_video s)
unfolding toggle_video
toggle_video-IsValid s v = elim (Option-cases s.local_stream) [
  | inl n ↦ ground (arith, n, v)
  | inr (x, l) ↦ elim (Option-cases x.video_enabled) [
    | inl n ↦ ground (arith, l, n, v)
    | inr (e, a) ↦ let r = toggled x e l in ground (arith, l, a, r)
  ]
]
  where
    toggled :
        (x : Stream) (e : Bool)
        → s.local_stream ≡ some x
        → IsValid (record s {
          local_stream = some (record x { video_enabled = some (not e) });
          call_video_off = e;
        })
    toggled x e l =
        let sh : AreShown (some x) s.call_muted s.call_video_off =
          subst (λ o. AreShown o s.call_muted s.call_video_off) l v.shown in
        record {
          with_stream = v.with_stream ∙ ap is_some l;
          kept = v.kept ∙ ap (λ o. s.released ++ id_of o) l;
          shown = (sh.0, λ e' q. ground (arith, q));
        }
