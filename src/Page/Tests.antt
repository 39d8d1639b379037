-- ===== src/Page/Tests.antt =====
-- The rounding theorem at an address inside a page.
use tvmm.Base.{◌+◌, ◌*◌, ◌≤◌, ◌<◌, ◌≡◌, refl, arith}
use tvmm.Page.{page_up, page_down, pfn_up, pfn_down}
use tvmm.Page.Laws.{page_rounding}

page_rounding_example :
    (page_up 0x5001 ≡ pfn_up 0x5001 * 4096)
    × (page_down 0x5001 ≡ pfn_down 0x5001 * 4096)
    × (0x5001 ≤ page_up 0x5001)
    × (page_up 0x5001 < 0x5001 + 4096)
    × (page_down 0x5001 ≤ 0x5001)
    × (0x5001 < page_down 0x5001 + 4096)
page_rounding_example = page_rounding 0x5001 (omega arith)

rounds : (page_up 0x5001 ≡ 0x6000) × (page_up 0x5000 ≡ 0x5000) × (page_down 0x5fff ≡ 0x5000)
unfolding page_up page_down
rounds = (refl, refl, refl)
