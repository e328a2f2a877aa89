-- ===== src/Rpc/ToolsList/Walk.antt =====
-- A client that follows the cursors sees every tool once.
use m_gate.Prelude.{
  Bool-cases, List, [], ap, append_nil, arith, drop, drop-drop, false, inl, inr, keep-append,
  length, length-drop, length-take_one_more, ltb, ltb→lt, lt→ltb, none, some, suc, take,
  take-append-drop, take-take_one_more, take_all, zero, ℕ, ◌++◌, ◌+◌, ◌<◌, ◌∙◌, ◌≡◌, ◌≤◌,
}
use m_gate.Catalog.{CatalogTool}
use m_gate.Rpc.ToolsList.{raw_page}
use m_gate.Tenant.Store.{ToolPolicy}
use m_gate.Tenant.ToolPolicy.{available_tools, is_tool_available}
use m_gate.Tenant.ToolPolicy.Discovery.{available_tools-keep}

module _ (policy : ToolPolicy) (limit : ℕ) (listed : List CatalogTool) where
  -- The tools of the pages from `offset` on, for at most so many pages.
  unfoldable pub walk : ℕ → ℕ → List CatalogTool
  unfolding raw_page available_tools
  walk zero offset = []
  walk (suc fuel) offset =
      let rest = walk fuel (offset + limit) in
      let (items, next) = raw_page limit offset listed in
      available_tools policy items ++ elim next [ none ↦ [] | some cursor ↦ rest ]

  available-append :
      (xs ys : List CatalogTool)
      → available_tools policy xs ++ available_tools policy ys ≡ available_tools policy (xs ++ ys)
  available-append xs ys = rw (
    available_tools-keep policy xs,
    available_tools-keep policy ys,
    available_tools-keep policy (xs ++ ys),
    keep-append (λ t. is_tool_available policy t.server t.name) xs ys,
  )

  raw_page-more :
      (offset : ℕ)
      → limit < length (drop offset listed)
      → raw_page limit offset listed ≡ (take limit (drop offset listed), some (offset + limit))
  unfolding raw_page
  raw_page-more offset h = rw (
    lt→ltb _ _ ((length-take_one_more limit (drop offset listed)).1 h),
    take-take_one_more limit (drop offset listed),
  )

  raw_page-last :
      (offset : ℕ)
      → length (drop offset listed) ≤ limit
      → raw_page limit offset listed ≡ (drop offset listed, none)
  unfolding raw_page
  raw_page-last offset h = rw (
    take_all (suc limit) (drop offset listed) (omega (arith, h)),
    not_more (length (drop offset listed)) h,
  )
    where
      not_more : (n : ℕ) → n ≤ limit → ltb limit n ≡ false
      not_more n le = ground arith

  -- Under a page limit of at least 1, a client that starts at an offset and follows the cursors,
  -- for more pages than tools are left, sees exactly the tools of the listing from there on that
  -- the policy shows, each once and in order, whatever pages they fall on. Listing and policy stay
  -- the same meanwhile.
  pub walk-available_tools :
      (fuel offset : ℕ)
      → 0 < limit
      → length (drop offset listed) < fuel
      → walk fuel offset ≡ available_tools policy (drop offset listed)
  unfolding walk
  walk-available_tools zero offset positive enough = absurd (omega arith)
  walk-available_tools (suc fuel) offset positive enough =
      let here = drop offset listed in
      elim (Bool-cases (ltb limit (length here))) [
        | inl more ↦
            let there : drop (offset + limit) listed ≡ drop limit here =
              drop-drop offset limit listed in
            let fewer : length (drop (offset + limit) listed) < fuel =
              shorter (length here) _ fuel (ltb→lt _ _ more)
                (ap (λ xs. length xs + limit) there
                  ∙ length-drop limit here (le_of_lt (ltb→lt _ _ more)))
                enough in
            rw (raw_page-more offset (ltb→lt _ _ more)) (
              ap (λ xs. available_tools policy (take limit here) ++ xs)
                (walk-available_tools fuel (offset + limit) positive fewer
                  ∙ ap (available_tools policy) there)
              ∙ available-append (take limit here) (drop limit here)
              ∙ ap (available_tools policy) (take-append-drop limit here))
        | inr last ↦
            rw (raw_page-last offset (at_most (length here) last))
              (append_nil (available_tools policy here))
      ]
    where
      at_most : (n : ℕ) → ltb limit n ≡ false → n ≤ limit
      at_most n h = ground arith

      le_of_lt : {m n : ℕ} → m < n → m ≤ n
      le_of_lt {m} {n} h = omega arith

      shorter : (n m fuel : ℕ) → limit < n → m + limit ≡ n → n < suc fuel → m < fuel
      shorter n m fuel more same enough = omega (arith, positive)
