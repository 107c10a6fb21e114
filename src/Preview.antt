-- ===== src/Preview.antt =====
-- The preview of the original document: frontend/src/components/source-preview.jsx. `Numbers` is
-- what it uses of JavaScript's numbers, `Image` and `Pdf` the two viewers, `Page` one page of a PDF,
-- `Text` the text over it, `Draws` what happens to both,
-- `Visible` the choice of the current page, `Load` the loads of a PDF, `View` what is shown.
pub mod Numbers
pub mod Image
pub mod Load
pub mod Pdf
pub mod Page
pub mod Text
pub mod Draws
pub mod View
