-- ===== src/Poll/Directions.antt =====
-- The two events of a connection: an event is the one changed, the other one of its connection, or
-- of another connection.
use lingx.Base.{ℕ, ◌≡◌, refl, ◌≢◌, inl, inr, Bool, true, false, ◌&&◌, arith, ◌==◌, Bool-cases}
use lingx.Poll.{Direction, pollin, pollout, other, same_direction}

-- The index of one event is changed.
abbrev pub is_event : ℕ → Direction → ℕ → Direction → Bool
is_event c d c' d' = (c' == c) && same_direction d' d

pub other-other : (d : Direction) → other (other d) ≡ d
other-other pollin = refl
other-other pollout = refl

pub other_direction : (d d' : Direction) → same_direction d' d ≡ false → d' ≡ other d
other_direction pollin pollin h = cc
other_direction pollin pollout h = refl
other_direction pollout pollin h = refl
other_direction pollout pollout h = cc

pub same_self : (d : Direction) → same_direction d d ≡ true
same_self pollin = refl
same_self pollout = refl

pub other_differs : (d : Direction) → same_direction (other d) d ≡ false
other_differs pollin = refl
other_differs pollout = refl

pub same_direction-eq : (d d' : Direction) → same_direction d' d ≡ true → d' ≡ d
same_direction-eq pollin pollin h = refl
same_direction-eq pollin pollout h = cc
same_direction-eq pollout pollin h = cc
same_direction-eq pollout pollout h = refl

direction_elim {ℓ} :
    (P : Direction → Type ℓ) (d : Direction) → P d → P (other d) → (x : Direction) → P x
direction_elim P pollin a b pollin = a
direction_elim P pollin a b pollout = b
direction_elim P pollout a b pollin = b
direction_elim P pollout a b pollout = a

pub is_event_self : (c : ℕ) (d : Direction) → is_event c d c d ≡ true
is_event_self c d = rw (same_self d) (ground arith)

-- An event is the one changed, the other one of its connection, or of another connection.
pub event_elim {ℓ} :
    (P : ℕ → Direction → Type ℓ) (c : ℕ) (d : Direction)
    → P c d
    → P c (other d)
    → ((c' : ℕ) (d' : Direction) → c' ≢ c → P c' d')
    → (c' : ℕ) (d' : Direction) → P c' d'
event_elim P c d a b f c' d' = elim (Bool-cases (c' == c)) [
  | inl e ↦ let same : c' ≡ c = ground arith in rw same (direction_elim (P c) d a b d')
  | inr e ↦ f c' d' (ground arith)
]
