-- ===== src/Bgp/Server/Actions.antt =====
-- Two actions that end alike and make the same proxies, whatever calls they have made before.
use gouter.Base.{
  ◌≡◌, refl, Bool, true, false, List, [], ◌∷◌, Option, none, some, ap, subst, ◌∙◌, sym,
  if◌then◌else◌, ◌⊎◌, inl, inr, Bool-cases,
}
use gouter.Bgp.Proxy.{ProxyManager}
use gouter.Bgp.Server.{
  World, Call, Ended, ok, failed, panicked, Action, pure, fail, or_fail, or_panic, bind_ended,
  ◌>>=◌, ◌>>◌, logged, log_failed, for_each, call,
}

-- Two results that differ at most in the calls.
pub record Alike {A : Type 0} (r r' : Ended A × World) : Type 0 where
  pub ending : r.0 ≡ r'.0
  pub proxies : r.1.proxies ≡ r'.1.proxies

abbrev pub Agree : {A : Type 0} → Action A → Action A → Type 0
Agree m m' = (w w' : World) → w.proxies ≡ w'.proxies → Alike (m w) (m' w')

Alike-bind :
    {A B : Type 0} (r r' : Ended A × World) (f f' : A → Action B)
    → Alike r r'
    → ((a : A) → Agree (f a) (f' a))
    → Alike (bind_ended r f) (bind_ended r' f')
Alike-bind (ok a, w) (ok b, w') f f' h k =
    let same : a ≡ b = cc h.ending in subst (λ x. Alike (f a w) (f' x w')) same (k a w w' h.proxies)
Alike-bind (failed, w) (failed, w') f f' h k = record { ending = refl; proxies = h.proxies }
Alike-bind (panicked, w) (panicked, w') f f' h k = record { ending = refl; proxies = h.proxies }
Alike-bind (ok a, w) (failed, w') f f' h k = absurd (cc h.ending)
Alike-bind (ok a, w) (panicked, w') f f' h k = absurd (cc h.ending)
Alike-bind (failed, w) (ok a, w') f f' h k = absurd (cc h.ending)
Alike-bind (failed, w) (panicked, w') f f' h k = absurd (cc h.ending)
Alike-bind (panicked, w) (ok a, w') f f' h k = absurd (cc h.ending)
Alike-bind (panicked, w) (failed, w') f f' h k = absurd (cc h.ending)

pub Agree-bind :
    {A B : Type 0} (m m' : Action A) (f f' : A → Action B)
    → Agree m m'
    → ((a : A) → Agree (f a) (f' a))
    → Agree (m >>= f) (m' >>= f')
Agree-bind m m' f f' h k w w' e = Alike-bind (m w) (m' w') f f' (h w w' e) k

pub Agree-then :
    {A B : Type 0} (m m' : Action A) (n n' : Action B)
    → Agree m m'
    → Agree n n'
    → Agree (m >> n) (m' >> n')
Agree-then m m' n n' h k = Agree-bind m m' (λ _. n) (λ _. n') h (λ _. k)

pub Agree-pure : {A : Type 0} (a : A) → Agree (pure a) (pure a)
Agree-pure a w w' e = record { ending = refl; proxies = e }

pub Agree-fail : {A : Type 0} → Agree (fail {A = A}) (fail {A = A})
Agree-fail w w' e = record { ending = refl; proxies = e }

pub Agree-or_fail : {A : Type 0} (o : Option A) → Agree (or_fail o) (or_fail o)
Agree-or_fail none w w' e = record { ending = refl; proxies = e }
Agree-or_fail (some a) w w' e = record { ending = refl; proxies = e }

pub Agree-or_panic : {A : Type 0} (o : Option A) → Agree (or_panic o) (or_panic o)
Agree-or_panic none w w' e = record { ending = refl; proxies = e }
Agree-or_panic (some a) w w' e = record { ending = refl; proxies = e }

pub Agree-if :
    {A : Type 0} (b : Bool) (m m' n n' : Action A)
    → Agree m m'
    → Agree n n'
    → Agree (if b then m else n) (if b then m' else n')
Agree-if true m m' n n' h k = h
Agree-if false m m' n n' h k = k

log_failed-Alike :
    (r r' : Ended (Unit {0}) × World) → Alike r r' → Alike (log_failed r) (log_failed r')
log_failed-Alike (ok a, w) (ok b, w') h = record { ending = h.ending; proxies = h.proxies }
log_failed-Alike (failed, w) (failed, w') h = record { ending = refl; proxies = h.proxies }
log_failed-Alike (panicked, w) (panicked, w') h = record { ending = refl; proxies = h.proxies }
log_failed-Alike (ok a, w) (failed, w') h = absurd (cc h.ending)
log_failed-Alike (ok a, w) (panicked, w') h = absurd (cc h.ending)
log_failed-Alike (failed, w) (ok a, w') h = absurd (cc h.ending)
log_failed-Alike (failed, w) (panicked, w') h = absurd (cc h.ending)
log_failed-Alike (panicked, w) (ok a, w') h = absurd (cc h.ending)
log_failed-Alike (panicked, w) (failed, w') h = absurd (cc h.ending)

pub Agree-logged : (m m' : Action (Unit {0})) → Agree m m' → Agree (logged m) (logged m')
Agree-logged m m' h w w' e = log_failed-Alike (m w) (m' w') (h w w' e)

pub Agree-for_each :
    {A : Type 0} (l : List A) (f f' : A → Action (Unit {0}))
    → ((a : A) → Agree (f a) (f' a))
    → Agree (for_each l f) (for_each l f')
unfolding for_each
Agree-for_each [] f f' h = Agree-pure tt
Agree-for_each (a ∷ l) f f' h =
    Agree-then (f a) (f' a) (for_each l f) (for_each l f') (h a) (Agree-for_each l f f' h)

pub Agree-call :
    (accepts accepts' : Call → Bool) (c : Call)
    → accepts c ≡ accepts' c
    → Agree (call accepts c) (call accepts' c)
unfolding call
Agree-call accepts accepts' c same w w' e = record {
  ending = ap (λ b. if b then ok tt else failed) same;
  proxies = e;
}

-- An action that makes calls alone and does not panic: its error logged, it leaves nothing behind.
pub Quiet : Action (Unit {0}) → Type 0
Quiet m = (w : World) → (((m w).0 ≡ ok tt) ⊎ ((m w).0 ≡ failed)) × ((m w).1.proxies ≡ w.proxies)

pub Quiet-call : (accepts : Call → Bool) (c : Call) → Quiet (call accepts c)
unfolding call Quiet
Quiet-call accepts c w = elim (Bool-cases (accepts c)) [
  | inl e ↦ (inl (ap (λ b. if b then ok tt else failed) e), refl)
  | inr e ↦ (inr (ap (λ b. if b then ok tt else failed) e), refl)
]

pub Quiet-pure : Quiet (pure tt)
unfolding Quiet
Quiet-pure w = (inl refl, refl)

Quiet-result :
    (r : Ended (Unit {0}) × World) (n : Action (Unit {0})) (p : ProxyManager)
    → (r.0 ≡ ok tt) ⊎ (r.0 ≡ failed)
    → r.1.proxies ≡ p
    → Quiet n
    → let q = bind_ended r (λ _. n) in ((q.0 ≡ ok tt) ⊎ (q.0 ≡ failed)) × (q.1.proxies ≡ p)
unfolding Quiet
Quiet-result (ok a, w) n p h e k = let (ends, same) = k w in (ends, same ∙ e)
Quiet-result (failed, w) n p h e k = (h, e)
Quiet-result (panicked, w) n p h e k = elim h [ inl x ↦ absurd (cc x) | inr x ↦ absurd (cc x) ]

pub Quiet-then : (m n : Action (Unit {0})) → Quiet m → Quiet n → Quiet (m >> n)
unfolding Quiet
Quiet-then m n h k w = let (ends, same) = h w in Quiet-result (m w) n w.proxies ends same k

log_failed-ok :
    (r : Ended (Unit {0}) × World)
    → (r.0 ≡ ok tt) ⊎ (r.0 ≡ failed)
    → ((log_failed r).0 ≡ ok tt) × ((log_failed r).1 ≡ r.1)
log_failed-ok (ok tt, w) h = (refl, refl)
log_failed-ok (failed, w) h = (refl, refl)
log_failed-ok (panicked, w) h = elim h [ inl x ↦ absurd (cc x) | inr x ↦ absurd (cc x) ]

-- Two quiet actions agree once their errors are only logged.
pub Agree-Quiet : (m m' : Action (Unit {0})) → Quiet m → Quiet m' → Agree (logged m) (logged m')
unfolding Quiet
Agree-Quiet m m' h h' w w' e =
    let (ends, same) = h w in
    let (ends', same') = h' w' in
    let (a, b) = log_failed-ok (m w) ends in
    let (a', b') = log_failed-ok (m' w') ends' in
    record {
      ending = a ∙ sym a';
      proxies = ap (λ x. x.proxies) b ∙ same ∙ e ∙ sym same' ∙ sym (ap (λ x. x.proxies) b');
    }
