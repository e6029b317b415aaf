-- ===== src/Store/Threads/Writes.antt =====
-- The writes of the Sets that are under way on a store (internal/store/store.go), and the lists in
-- which they stand: drawn, logged and applied.
use mathlib.Core.List.{Permᴰ}
use mathlib.Core.List.Permᴰ
use mathlib.Core.Path.{subst}
use high_performance_kv_stor.Prelude.{
  ◌≡◌, refl, sym, ◌∙◌, ap, Bool, true, false, List, [], ◌∷◌, ◌++◌, All, append_assoc,
}
use high_performance_kv_stor.Store.State.Converge.{Write}
use high_performance_kv_stor.Store.Threads.{
  Point, set_called, set_logging, set_storing, set_returned, delete_returned, get_returned,
  reap_returned, snapshot_returned, is_call,
}

-- The write of a Set that has its version and is not in the log yet.
abbrev pub drawn_of : Point → List Write
drawn_of (set_logging key e) = (key, e) ∷ []
drawn_of _ = []

-- The write of a Set that is in the log and not in the map yet.
abbrev pub pending_of : Point → List Write
pending_of (set_storing key e) = (key, e) ∷ []
pending_of _ = []

abbrev pub gather : (Point → List Write) → List Point → List Write
gather f [] = []
gather f (p ∷ ps) = f p ++ gather f ps

-- The call has returned.
abbrev pub is_returned : Point → Bool
is_returned (set_returned result) = true
is_returned (delete_returned result) = true
is_returned (get_returned result) = true
is_returned reap_returned = true
is_returned (snapshot_returned error) = true
is_returned _ = false

pub gather-append :
    (f : Point → List Write) (ps qs : List Point) → gather f (ps ++ qs) ≡ gather f ps ++ gather f qs
gather-append f [] qs = refl
gather-append f (p ∷ ps) qs =
    ap (λ ws. f p ++ ws) (gather-append f ps qs)
    ∙ sym (append_assoc (f p) (gather f ps) (gather f qs))

pub drawn_of-call : (p : Point) → is_call p ≡ true → drawn_of p ≡ []
drawn_of-call (set_called key value ttl version) h = refl
drawn_of-call (set_logging key e) h = absurd (cc h)
drawn_of-call p h = refl

pub pending_of-call : (p : Point) → is_call p ≡ true → pending_of p ≡ []
pending_of-call (set_called key value ttl version) h = refl
pending_of-call (set_storing key e) h = absurd (cc h)
pending_of-call p h = refl

drawn_of-returned : (p : Point) → is_returned p ≡ true → drawn_of p ≡ []
drawn_of-returned (set_logging key e) h = absurd (cc h)
drawn_of-returned p h = refl

pending_of-returned : (p : Point) → is_returned p ≡ true → pending_of p ≡ []
pending_of-returned (set_storing key e) h = absurd (cc h)
pending_of-returned p h = refl

pub gather-returned :
    (f : Point → List Write)
    → ((p : Point) → is_returned p ≡ true → f p ≡ [])
    → (ps : List Point) → All (λ p. is_returned p ≡ true) ps
    → gather f ps ≡ []
gather-returned f h [] done = refl
gather-returned f h (p ∷ ps) done = rw (h p done.0) (gather-returned f h ps done.1)

pub drawn-returned :
    (ps : List Point) → All (λ p. is_returned p ≡ true) ps → gather drawn_of ps ≡ []
drawn-returned = gather-returned drawn_of drawn_of-returned

pub pending-returned :
    (ps : List Point) → All (λ p. is_returned p ≡ true) ps → gather pending_of ps ≡ []
pending-returned = gather-returned pending_of pending_of-returned

module _ {A : Type 0} where
  -- A new element among others.
  pub perm_enters :
      (a : A) {all : List A} (xs ys rest : List A)
      → Permᴰ all ((xs ++ ys) ++ rest)
      → Permᴰ (a ∷ all) ((xs ++ a ∷ ys) ++ rest)
  perm_enters a xs ys rest p =
      Permᴰ.trans (Permᴰ.cons refl p) (Permᴰ.append_right rest (Permᴰ.symm (Permᴰ.middle a xs ys)))

  -- An element goes from among others to the end of the list behind them.
  pub perm_passes :
      (a : A) {all : List A} (xs ys rest : List A)
      → Permᴰ all ((xs ++ a ∷ ys) ++ rest)
      → Permᴰ all ((xs ++ ys) ++ (rest ++ a ∷ []))
  perm_passes a {all} xs ys rest p =
      subst (λ l. Permᴰ all l) (append_assoc (xs ++ ys) rest (a ∷ []))
        (Permᴰ.trans p (
          Permᴰ.trans (Permᴰ.append_right rest (Permᴰ.middle a xs ys))
            (Permᴰ.append_comm (a ∷ []) ((xs ++ ys) ++ rest))))

  -- A list and what it is made of grow by the same element.
  pub perm_grows :
      (a : A) {all : List A} (front xs ys : List A)
      → Permᴰ all (front ++ (xs ++ ys))
      → Permᴰ (all ++ a ∷ []) (front ++ (xs ++ a ∷ ys))
  perm_grows a {all} front xs ys p = Permᴰ.trans (Permᴰ.append_comm all (a ∷ [])) (
      Permᴰ.trans (Permᴰ.cons refl p) (
        Permᴰ.trans (Permᴰ.symm (Permᴰ.middle a front (xs ++ ys)))
          (Permᴰ.append_left front (Permᴰ.symm (Permᴰ.middle a xs ys)))))

  -- An element goes from among others to the end of the list before them.
  pub perm_returns :
      (a : A) {all : List A} (front xs ys : List A)
      → Permᴰ all (front ++ (xs ++ a ∷ ys))
      → Permᴰ all ((front ++ a ∷ []) ++ (xs ++ ys))
  perm_returns a {all} front xs ys p =
      subst (λ l. Permᴰ all l) (sym (append_assoc front (a ∷ []) (xs ++ ys)))
        (Permᴰ.trans p (Permᴰ.append_left front (Permᴰ.middle a xs ys)))

  pub All-perm : (P : A → Type 0) {xs ys : List A} → Permᴰ xs ys → All P xs → All P ys
  All-perm P Permᴰ.nil h = tt
  All-perm P (Permᴰ.cons e p) h = (subst P e h.0, All-perm P p h.1)
  All-perm P (Permᴰ.swap e f) h = (subst P f h.1.0, (subst P e h.0, h.1.1))
  All-perm P (Permᴰ.trans p q) h = All-perm P q (All-perm P p h)

  pub All-left : (P : A → Type 0) (xs ys : List A) → All P (xs ++ ys) → All P xs
  All-left P [] ys h = tt
  All-left P (x ∷ xs) ys h = (h.0, All-left P xs ys h.1)

  pub All-middle : (P : A → Type 0) (xs ys : List A) (a : A) → All P (xs ++ a ∷ ys) → P a
  All-middle P [] ys a h = h.0
  All-middle P (x ∷ xs) ys a h = All-middle P xs ys a h.1
