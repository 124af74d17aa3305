-- ===== src/Cmd/Split/Receivers.antt =====
-- The receivers of a PRIVMSG: isDupReceiver (src/Cmd/CmdPrivmsg.cpp).
use ft_irc_refactor.Base.{
  ◌≡◌, ◌≢◌, ◌↔◌, refl, sym, ◌∙◌, inl, inr, Bool, true, false, ◌||◌, List, [], ◌∷◌, Str, str_eq,
  str_eq_iff, All, mem, insert, find, mem-insert, str_key, Bool-cases, if◌then◌else◌,
}
use ft_irc_refactor.Channel.{Set}
use ft_irc_refactor.Cmd.Split.{dup_receiver_from, is_dup_receiver}

-- No receiver stands twice in the list.
unfoldable pub Distinct : List Str → Type 0
Distinct [] = Unit
Distinct (r ∷ rs) = All (λ q. r ≢ q) rs × Distinct rs

abbrev Fresh : Set Str → List Str → Type 0
Fresh seen = All (λ q. mem q seen ≡ false)

either_false : (a b : Bool) → ((a || b) ≡ false) ↔ ((a ≡ false) × (b ≡ false))
either_false true b = (λ h. absurd (cc), λ h. absurd (cc))
either_false false b = (λ h. (refl, h), λ h. h.1)

unless_false : (a b : Bool) → ((if a then true else b) ≡ false) ↔ ((a ≡ false) × (b ≡ false))
unless_false true b = (λ h. absurd (cc), λ h. absurd (cc))
unless_false false b = (λ h. (refl, h), λ h. h.1)

differs : (r q : Str) → (str_eq r q ≡ false) ↔ (r ≢ q)
differs r q = elim (Bool-cases (str_eq r q)) [
  | inl e ↦ (λ h. absurd (cc), λ h. absurd (h ((str_eq_iff r q).0 e)))
  | inr e ↦ (λ h x. absurd (let k = (str_eq_iff r q).1 x in (cc)), λ h. e)
]

Fresh-iff :
    (r : Str) (seen : Set Str) (rs : List Str)
    → Fresh (insert r tt seen) rs ↔ (Fresh seen rs × All (λ q. r ≢ q) rs)
Fresh-iff r seen [] = (λ h. (tt, tt), λ h. tt)
Fresh-iff r seen (q ∷ rs) = (
  λ (a, h).
      let (d, m) = (either_false _ _).0 (sym (mem-insert r q tt seen) ∙ a) in
      let (k, l) = (Fresh-iff r seen rs).0 h in ((m, k), ((differs r q).0 d, l)),
  λ ((m, k), (d, l)). (
    mem-insert r q tt seen ∙ (either_false _ _).1 ((differs r q).1 d, m),
    (Fresh-iff r seen rs).1 (k, l),
  ),
)

dup_from_iff :
    (seen : Set Str) (rs : List Str)
    → (dup_receiver_from seen rs ≡ false) ↔ (Fresh seen rs × Distinct rs)
unfolding dup_receiver_from Distinct
dup_from_iff seen [] = (λ h. (tt, tt), λ h. refl)
dup_from_iff seen (r ∷ rs) = (
  λ h.
      let (e, x) = (unless_false (mem r seen) _).0 h in
      let (f, d) = (dup_from_iff (insert r tt seen) rs).0 x in
      let (k, l) = (Fresh-iff r seen rs).0 f in ((e, k), (l, d)),
  λ ((e, k), (l, d)).
      (unless_false (mem r seen) _).1
        (e, (dup_from_iff (insert r tt seen) rs).1 ((Fresh-iff r seen rs).1 (k, l), d)),
)

none_seen : (rs : List Str) → Fresh [] rs
unfolding find
none_seen [] = tt
none_seen (r ∷ rs) = (refl, none_seen rs)

-- A list of receivers is found to have no duplicate exactly where no receiver stands in it twice.
pub is_dup_receiver_iff : (rs : List Str) → (is_dup_receiver rs ≡ false) ↔ Distinct rs
unfolding is_dup_receiver
is_dup_receiver_iff rs =
    (λ h. ((dup_from_iff [] rs).0 h).1, λ d. (dup_from_iff [] rs).1 (none_seen rs, d))
