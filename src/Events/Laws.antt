-- ===== src/Events/Laws.antt =====
-- The event bus refines a map from events to lists of handlers.
use troxe_host.Common.{
  ℕ, ◌==◌, Bool, true, false, List, [], ◌∷◌, ◌++◌, Text, codes, text_eq, text_eq_iff, text_eq_sym,
  ◌≡◌, refl, sym, ◌∙◌, ap, Bool-cases, inl, inr, if◌then◌else◌,
}
use troxe_host.Common.Int.{ℤ, pos, negsuc}
use troxe_host.Events.{
  Handlers, handlers_of, on, one_on, index_of, splice, splice_found, without_at, off, called,
}

-- the calls of `on` and `off`
pub data Call : Type 0 where
  registers unregisters : Text → ℕ → Call

-- the code, call by call, the latest first
abbrev pub performed : List Call → Handlers → Handlers
performed [] handlers = handlers
performed (registers event handler ∷ earlier) handlers =
    on event handler (performed earlier handlers)
performed (unregisters event handler ∷ earlier) handlers =
    off event handler (performed earlier handlers)

-- a list without the first of its elements that is the handler, and the list where none is
abbrev pub without_first : ℕ → List ℕ → List ℕ
without_first handler [] = []
without_first handler (h ∷ hs) = if h == handler then hs else h ∷ without_first handler hs

-- The promise: a map, where a registration goes to the end of the list of its event, and the removal
-- of a registration removes the first one of its handler, and nothing where it has none.
abbrev pub promised : List Call → (Text → List ℕ) → Text → List ℕ
promised [] spec event = spec event
promised (registers e handler ∷ earlier) spec event =
    let before = promised earlier spec event in
    if text_eq e event then before ++ handler ∷ [] else before
promised (unregisters e handler ∷ earlier) spec event =
    let before = promised earlier spec event in
    if text_eq e event then without_first handler before else before

-- a key that is the event of the call, and one that is not
at_key :
    {b : Bool} (e k event : Text) → text_eq k e ≡ true → text_eq k event ≡ b → text_eq e event ≡ b
at_key e k event mine h = ap (λ x. text_eq x event) (sym ((text_eq_iff k e).0 mine)) ∙ h

past_key :
    (e k event : Text) → text_eq k e ≡ false → text_eq k event ≡ true → text_eq e event ≡ false
past_key e k event other hit =
    text_eq_sym e event ∙ ap (λ x. text_eq x e) (sym ((text_eq_iff k event).0 hit)) ∙ other

handlers_of-on :
    (e : Text) (handler : ℕ) (handlers : Handlers) (event : Text)
    → handlers_of event (on e handler handlers) ≡ (
        if text_eq e event
        then handlers_of event handlers ++ handler ∷ []
        else handlers_of event handlers)
unfolding handlers_of on
handlers_of-on e handler [] event = refl
handlers_of-on e handler ((k, hs) ∷ rest) event = elim (Bool-cases (text_eq k e)) [
  | inl mine ↦ elim (Bool-cases (text_eq k event)) [
    | inl hit ↦ rw (mine, hit, at_key e k event mine hit) refl
    | inr miss ↦ rw (mine, miss, at_key e k event mine miss) refl
  ]
  | inr other ↦ elim (Bool-cases (text_eq k event)) [
    | inl hit ↦ rw (other, hit, past_key e k event other hit) refl
    | inr miss ↦ rw (other, miss) (handlers_of-on e handler rest event)
  ]
]

empty_left : splice_found (negsuc 0) [] ≡ []
unfolding splice_found
empty_left = refl

first_left : (h : ℕ) (hs : List ℕ) → splice_found (pos 0) (h ∷ hs) ≡ hs
unfolding splice_found splice without_at
first_left h hs = refl

splice_found-one_on :
    (i : ℤ) (h : ℕ) (hs : List ℕ) → splice_found (one_on i) (h ∷ hs) ≡ h ∷ splice_found i hs
unfolding splice_found splice without_at
splice_found-one_on (pos i) h hs = refl
splice_found-one_on (negsuc i) h hs = refl

-- the index and the splice of the code remove the first of the handler's registrations
splice_found_lem :
    (handler : ℕ) (hs : List ℕ) → splice_found (index_of handler hs) hs ≡ without_first handler hs
unfolding index_of
splice_found_lem handler [] = empty_left
splice_found_lem handler (h ∷ hs) = elim (Bool-cases (h == handler)) [
  | inl same ↦ rw same (first_left h hs)
  | inr other ↦ rw other (
      splice_found-one_on (index_of handler hs) h hs
      ∙ ap (λ rest. h ∷ rest) (splice_found_lem handler hs))
]

handlers_of-off :
    (e : Text) (handler : ℕ) (handlers : Handlers) (event : Text)
    → handlers_of event (off e handler handlers) ≡ (
        if text_eq e event
        then without_first handler (handlers_of event handlers)
        else handlers_of event handlers)
unfolding handlers_of off
handlers_of-off e handler [] event = elim (Bool-cases (text_eq e event)) [
  | inl hit ↦ rw hit refl
  | inr miss ↦ rw miss refl
]
handlers_of-off e handler ((k, hs) ∷ rest) event = elim (Bool-cases (text_eq k e)) [
  | inl mine ↦ elim (Bool-cases (text_eq k event)) [
    | inl hit ↦ rw (mine, hit, at_key e k event mine hit) (splice_found_lem handler hs)
    | inr miss ↦ rw (mine, miss, at_key e k event mine miss) refl
  ]
  | inr other ↦ elim (Bool-cases (text_eq k event)) [
    | inl hit ↦ rw (other, hit, past_key e k event other hit) refl
    | inr miss ↦ rw (other, miss) (handlers_of-off e handler rest event)
  ]
]

performed-promised :
    (calls : List Call) (handlers : Handlers) (event : Text)
    → handlers_of event (performed calls handlers)
      ≡ promised calls (λ e. handlers_of e handlers) event
performed-promised [] handlers event = refl
performed-promised (registers e handler ∷ earlier) handlers event =
    handlers_of-on e handler (performed earlier handlers) event
    ∙ rw (performed-promised earlier handlers event) refl
performed-promised (unregisters e handler ∷ earlier) handlers event =
    handlers_of-off e handler (performed earlier handlers) event
    ∙ rw (performed-promised earlier handlers event) refl

-- After any calls of `on` and `off`, in any order and from any registered handlers, `emit` calls the
-- handlers that the map promises for the event and then those that it promises for every event. In
-- the map `off` removes the first registration of its handler, and nothing where there is none.
pub called-promised :
    (calls : List Call) (handlers : Handlers) (event : Text)
    → called event (performed calls handlers)
      ≡ promised calls (λ e. handlers_of e handlers) event
        ++ promised calls (λ e. handlers_of e handlers) (codes "*")
unfolding called
called-promised calls handlers event =
    rw (performed-promised calls handlers event, performed-promised calls handlers (codes "*")) refl
