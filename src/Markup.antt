-- ===== src/Markup.antt =====
-- What a page shows, as the list of its texts and controls in their order; the elements that only
-- group, space or colour others, and the drawn icons, are left out. `E` is the type of the page's
-- events: each control holds the event that it raises.
use gourl.Common.{
  Bool, true, false, Option, none, some, List, [], ◌∷◌, ◌++◌, Text, if◌then◌else◌, map, ◌≡◌, refl,
  ap,
}
use gourl.Api.Types.{Message}

pub data Node (E : Type 0) : Type 0 where
  -- a heading, a paragraph or a label
  text : Message → Node E
  -- a text of the data
  value : Text → Node E
  -- its label, whether it is disabled, and the click
  button : Message → Bool → E → Node E
  -- its label, its value, the change and the loss of the focus
  input : Message → Text → (Text → E) → Option E → Node E
  -- its label, its value, the options with their labels, and the choice
  select : Message → Text → List (Text × Message) → (Text → E) → Node E
  -- its label, its state and the click
  switch checkbox : Message → Bool → (Bool → E) → Node E
  -- its label, the address and the target of an anchor
  link : Message → Text → Text → Node E

module _ {E : Type 0} where
  -- `condition && nodes`
  abbrev pub when : Bool → List (Node E) → List (Node E)
  when true nodes = nodes
  when false nodes = []

  -- The clicks that the shown buttons take.
  unfoldable pub clicks : List (Node E) → List E
  clicks [] = []
  clicks (button label disabled click ∷ nodes) =
      if disabled then clicks nodes else click ∷ clicks nodes
  clicks (_ ∷ nodes) = clicks nodes

module _ {E F : Type 0} (f : E → F) where
  abbrev map_event : Node E → Node F
  map_event (text m) = text m
  map_event (value v) = value v
  map_event (button label disabled click) = button label disabled (f click)
  map_event (input label v change (some blur)) = input label v (λ w. f (change w)) (some (f blur))
  map_event (input label v change none) = input label v (λ w. f (change w)) none
  map_event (select label v options choose) = select label v options (λ w. f (choose w))
  map_event (switch label b click) = switch label b (λ c. f (click c))
  map_event (checkbox label b click) = checkbox label b (λ c. f (click c))
  map_event (link label address target) = link label address target

  -- A part of a page, with its events among the page's.
  unfoldable pub embed : List (Node E) → List (Node F)
  embed nodes = map map_event nodes

  pub clicks-embed : (nodes : List (Node E)) → clicks (embed nodes) ≡ map f (clicks nodes)
  unfolding clicks embed
  clicks-embed [] = refl
  clicks-embed (text m ∷ nodes) = clicks-embed nodes
  clicks-embed (value v ∷ nodes) = clicks-embed nodes
  clicks-embed (button label true click ∷ nodes) = clicks-embed nodes
  clicks-embed (button label false click ∷ nodes) = ap (λ r. f click ∷ r) (clicks-embed nodes)
  clicks-embed (input label v change (some blur) ∷ nodes) = clicks-embed nodes
  clicks-embed (input label v change none ∷ nodes) = clicks-embed nodes
  clicks-embed (select label v options choose ∷ nodes) = clicks-embed nodes
  clicks-embed (switch label b click ∷ nodes) = clicks-embed nodes
  clicks-embed (checkbox label b click ∷ nodes) = clicks-embed nodes
  clicks-embed (link label address target ∷ nodes) = clicks-embed nodes

pub clicks-append :
    {E : Type 0} (ms ns : List (Node E)) → clicks (ms ++ ns) ≡ clicks ms ++ clicks ns
unfolding clicks
clicks-append [] ns = refl
clicks-append (button label true click ∷ ms) ns = clicks-append ms ns
clicks-append (button label false click ∷ ms) ns = ap (λ r. click ∷ r) (clicks-append ms ns)
clicks-append (text m ∷ ms) ns = clicks-append ms ns
clicks-append (value v ∷ ms) ns = clicks-append ms ns
clicks-append (input label v change blur ∷ ms) ns = clicks-append ms ns
clicks-append (select label v options choose ∷ ms) ns = clicks-append ms ns
clicks-append (switch label b click ∷ ms) ns = clicks-append ms ns
clicks-append (checkbox label b click ∷ ms) ns = clicks-append ms ns
clicks-append (link label address target ∷ ms) ns = clicks-append ms ns
