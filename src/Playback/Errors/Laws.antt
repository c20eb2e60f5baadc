-- ===== src/Playback/Errors/Laws.antt =====
-- An error that was made friendly stays as it is.
use peanut_butter.Prelude.{◌≡◌, refl, Bool, true, false, List, [], ◌∷◌, All, Bool-cases, inl, inr}
use peanut_butter.Text.{Text, to_ascii_lowercase}
use peanut_butter.Playback.Errors.{
  is_friendly, stream_messages, first_message, last_message, friendly_stream_error,
}

-- Each message is one for the user.
abbrev AllFriendly : List (Bool × Text) → Type 0
AllFriendly = All (λ m. is_friendly m.1 ≡ true)

first_message-friendly :
    (messages : List (Bool × Text)) (other : Text)
    → AllFriendly messages
    → is_friendly other ≡ true
    → is_friendly (first_message messages other) ≡ true
unfolding first_message
first_message-friendly [] other h k = k
first_message-friendly ((true, message) ∷ messages) other h k = h.0
first_message-friendly ((false, message) ∷ messages) other h k =
    first_message-friendly messages other h.1 k

stream_messages-AllFriendly : (t : Text) → AllFriendly (stream_messages t)
unfolding stream_messages is_friendly
stream_messages-AllFriendly t = (refl, (refl, (refl, (refl, (refl, (refl, (refl, tt)))))))

last-friendly : is_friendly last_message ≡ true
unfolding is_friendly
last-friendly = refl

friendly_once : (raw : Text) → is_friendly (friendly_stream_error raw) ≡ true
unfolding friendly_stream_error
friendly_once raw = elim (Bool-cases (is_friendly raw)) [
  | inl e ↦ rw (friendly_stream_error, e) e
  | inr e ↦
      rw (friendly_stream_error, e)
        (first_message-friendly (stream_messages (to_ascii_lowercase raw)) last_message
          (stream_messages-AllFriendly (to_ascii_lowercase raw)) last-friendly)
]

unchanged : (raw : Text) → is_friendly raw ≡ true → friendly_stream_error raw ≡ raw
unfolding friendly_stream_error
unchanged raw e = rw (friendly_stream_error, e) refl

-- The message for an error of a stream is one for the user, and is not changed when it is taken for
-- an error again, as where the errors of one step are those of the next.
pub friendly_stream_error_lem :
    (raw : Text)
    → (is_friendly (friendly_stream_error raw) ≡ true)
      × (friendly_stream_error (friendly_stream_error raw) ≡ friendly_stream_error raw)
friendly_stream_error_lem raw =
    (friendly_once raw, unchanged (friendly_stream_error raw) (friendly_once raw))
