-- ===== src/Ui/Toasts.antt =====
-- How long frontend/src/components/Toast.tsx shows a toast.
