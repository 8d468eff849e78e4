-- ===== src/Saving/Retries.antt =====
-- app/repositories/database_repository.go: the attempts of a save, and its hooks.
use goth_scaffold.Prelude.{
  ℕ, ◌≤◌, suc, ◌≡◌, refl, sym, ap, ◌∙◌, ◌⊎◌, inl, inr, arith, true, false, List, [], ◌∷◌, ◌++◌,
  length, append-nil, Option, none, some, if_rule,
}
use goth_scaffold.Saving.{
  Store, unless_error, after_save, save_backoffs, save_attempts, save_with_retry,
}

-- What is done to the entity, in order
pub data SaveEvent (E : Type 0) : Type 0 where
  pre_ran row_saved post_ran : Option E → SaveEvent E
  slept : ℕ → SaveEvent E

pub record SaveTrace (S E : Type 0) : Type 0 where
  pub state : S
  pub trace : List (SaveEvent E)

module _ {S E : Type 0} where
  abbrev pub trace_step :
      (Option E → SaveEvent E) → (S → Option E × S) → SaveTrace S E → Option E × SaveTrace S E
  trace_step event f s =
      let (e, s') = f s.state in (e, record { state = s'; trace = s.trace ++ event e ∷ [] })

  abbrev untraced : {A : Type 0} → (S → A × S) → SaveTrace S E → A × SaveTrace S E
  untraced f s = let (a, s') = f s.state in (a, record s { state = s' })

module _ {S E T : Type 0} where
  -- The store, with a record of the hooks, the saves and the waits
  abbrev pub traced : Store S E T → Store (SaveTrace S E) E T
  traced d = record {
    pre_save = trace_step pre_ran d.pre_save;
    post_save = trace_step post_ran d.post_save;
    pre_delete = untraced d.pre_delete;
    post_delete = untraced d.post_delete;
    save_row = trace_step row_saved d.save_row;
    delete_row = untraced d.delete_row;
    create_row = untraced d.create_row;
    save_without_created = untraced d.save_without_created;
    first_existing =
        λ s. (let (e, t, s') = d.first_existing s.state in (e, t, record s { state = s' }));
    first_entity = untraced d.first_entity;
    copy_key = λ t s. record s { state = d.copy_key t s.state };
    sleep = λ t s. record { state = d.sleep t s.state; trace = s.trace ++ slept t ∷ [] };
    is_not_found = d.is_not_found;
    is_duplicate_key = d.is_duplicate_key;
    is_retryable = d.is_retryable;
  }

  -- What a save with the given backoffs may do, and what it then returns
  pub data Attempts (d : Store S E T) : List ℕ → List (SaveEvent E) → Option E → Type 0 where
    refused : (ts : List ℕ) (e : E) → Attempts d ts (pre_ran (some e) ∷ []) (some e)
    saved :
        (ts : List ℕ) (r : Option E)
        → Attempts d ts (pre_ran none ∷ row_saved none ∷ post_ran r ∷ []) r
    gives_up :
        (ts : List ℕ) (e : E)
        → (d.is_retryable e ≡ false) ⊎ (ts ≡ [])
        → Attempts d ts (pre_ran none ∷ row_saved (some e) ∷ []) (some e)
    retries :
        (t : ℕ) (ts : List ℕ) (e : E) (es : List (SaveEvent E)) (r : Option E)
        → d.is_retryable e ≡ true
        → Attempts d ts es r
        → Attempts d (t ∷ ts) (pre_ran none ∷ row_saved (some e) ∷ slept t ∷ es) r

  -- An end that goes on from a trace by an allowed sequence
  pub record Attempted (d : Store S E T) (ts : List ℕ) (start : List (SaveEvent E))
      (x : Option E × SaveTrace S E) : Type 0 where
    pub events : List (SaveEvent E)
    pub traced_so : x.1.trace ≡ start ++ events
    pub allowed : Attempts d ts events x.0

unless_error_rule :
    {S E : Type 0} (P : Option E × S → Type 0) (x : Option E × S) (next : S → Option E × S)
    → ((e : E) → x.0 ≡ some e → P (some e, x.1))
    → (x.0 ≡ none → P (next x.1))
    → P (unless_error x next)
unless_error_rule P (some e, s) next f g = f e refl
unless_error_rule P (none, s) next f g = g refl

module _ {S E T : Type 0} (d : Store S E T) where
  after_save_rule :
      (P : Option E × S → Type 0) (x : Option E × S) (again : E → S → Option E × S)
      → (x.0 ≡ none → P (d.post_save x.1))
      → ((e : E) → x.0 ≡ some e → P (again e x.1))
      → P (after_save d x again)
  after_save_rule P (none, s) again f g = f refl
  after_save_rule P (some e, s) again f g = g e refl

append-two : {A : Type 0} (xs : List A) (a b : A) → (xs ++ a ∷ []) ++ b ∷ [] ≡ xs ++ (a ∷ b ∷ [])
append-two [] a b = refl
append-two (x ∷ xs) a b = ap (λ l. x ∷ l) (append-two xs a b)

append-three :
    {A : Type 0} (xs : List A) (a b c : A) (ys : List A)
    → (((xs ++ a ∷ []) ++ b ∷ []) ++ c ∷ []) ++ ys ≡ xs ++ (a ∷ b ∷ c ∷ ys)
append-three [] a b c ys = refl
append-three (x ∷ xs) a b c ys = ap (λ l. x ∷ l) (append-three xs a b c ys)

module _ {S E T : Type 0} (d : Store S E T) where
  -- One attempt, from what it does where the save of the row fails
  attempt-Attempted :
      (ts : List ℕ) (s : SaveTrace S E) (again : E → SaveTrace S E → Option E × SaveTrace S E)
      → ((e : E) (s' : SaveTrace S E)
          → s'.trace ≡ s.trace ++ (pre_ran none ∷ row_saved (some e) ∷ [])
          → Attempted d ts s.trace (again e s'))
      → Attempted d ts s.trace (
          unless_error
            ((traced d).pre_save s)
            (λ s. after_save (traced d) ((traced d).save_row s) again))
  attempt-Attempted ts s again h =
      unless_error_rule (Attempted d ts s.trace) ((traced d).pre_save s) _
        (λ e p. record {
          events = pre_ran (some e) ∷ [];
          traced_so = rw (p) refl;
          allowed = refused ts e;
        })
        (λ p.
          after_save_rule (traced d) (Attempted d ts s.trace) ((traced d).save_row _) again
            (λ r. record {
              events = pre_ran none ∷ row_saved none ∷ post_ran _ ∷ [];
              traced_so = rw (p, r) (sym (append-nil _) ∙ append-three s.trace _ _ _ []);
              allowed = saved ts _;
            })
            (λ e r. h e _ (rw (p, r) (append-two s.trace _ _))))

  save_attempts-Attempted :
      (ts : List ℕ) (s : SaveTrace S E) → Attempted d ts s.trace (save_attempts (traced d) ts s)
  unfolding save_attempts
  save_attempts-Attempted [] s =
      attempt-Attempted [] s (λ e s'. (some e, s'))
        (λ e s' h. record {
          events = pre_ran none ∷ row_saved (some e) ∷ [];
          traced_so = h;
          allowed = gives_up [] e (inr refl);
        })
  save_attempts-Attempted (t ∷ ts) s = attempt-Attempted (t ∷ ts) s _ (λ e s' h.
      if_rule (Attempted d (t ∷ ts) s.trace) (d.is_retryable e)
        (λ retryable.
          let rest = save_attempts-Attempted ts ((traced d).sleep t s') in
          record {
            events = pre_ran none ∷ row_saved (some e) ∷ slept t ∷ rest.events;
            traced_so =
                rest.traced_so
                ∙ ap (λ l. (l ++ slept t ∷ []) ++ rest.events) (h ∙ sym (append-two s.trace _ _))
                ∙ append-three s.trace _ _ _ rest.events;
            allowed = retries t ts e rest.events _ retryable rest.allowed;
          })
        (λ fatal. record {
          events = pre_ran none ∷ row_saved (some e) ∷ [];
          traced_so = h;
          allowed = gives_up (t ∷ ts) e (inl fatal);
        }))

  -- A save with retries runs PreSave, saves the row and runs PostSave; where the save of the row
  -- fails with an error that can be retried, it waits for the next of the five delays and starts
  -- again with PreSave; it returns the error of a hook, an error that cannot be retried, or that
  -- of the sixth save.
  pub save_with_retry-Attempted :
      (s : SaveTrace S E) → Attempted d save_backoffs s.trace (save_with_retry (traced d) s)
  unfolding save_with_retry
  save_with_retry-Attempted s = save_attempts-Attempted save_backoffs s

module _ {E : Type 0} where
  abbrev pub saves : List (SaveEvent E) → ℕ
  saves [] = 0
  saves (row_saved e ∷ es) = suc (saves es)
  saves (_ ∷ es) = saves es

  abbrev pub written : List (SaveEvent E) → ℕ
  written [] = 0
  written (row_saved none ∷ es) = suc (written es)
  written (_ ∷ es) = written es

module _ {S E T : Type 0} (d : Store S E T) where
  Attempts-saves :
      {ts : List ℕ} {es : List (SaveEvent E)} {r : Option E}
      → Attempts d ts es r
      → (saves es ≤ suc (length ts)) × (written es ≤ 1) × (r ≡ none → written es ≡ 1)
  Attempts-saves (refused ts e) = (ground arith, ground arith, λ h. absurd (cc h))
  Attempts-saves (saved ts r) = (ground arith, ground arith, λ h. refl)
  Attempts-saves (gives_up ts e c) = (ground arith, ground arith, λ h. absurd (cc h))
  Attempts-saves (retries t ts e es r b h) =
      let rest = Attempts-saves h in (ground (arith, rest.0), rest.1, rest.2)

  -- A save with retries saves the row at most six times, at most one of these succeeds, and one does where
  -- it returns no error.
  pub save_with_retry-saves :
      (s : S)
      → let start : SaveTrace S E = record { state = s; trace = [] } in
        let x = save_with_retry (traced d) start in
        (saves x.1.trace ≤ 6) × (written x.1.trace ≤ 1) × (x.0 ≡ none → written x.1.trace ≡ 1)
  save_with_retry-saves s =
      let start : SaveTrace S E = record { state = s; trace = [] } in
      let h = save_with_retry-Attempted d start in rw (h.traced_so) (Attempts-saves h.allowed)
